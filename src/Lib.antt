-- ===== src/Lib.antt =====
-- XSR routes chat prompts to backends inside the kernel. Its userspace tooling, in Python, decides what
-- the kernel is given: it reads a keyword policy, checks it, and generates C headers from it; it holds
-- the reference matchers against which the eBPF matchers are tested; and it trains, quantizes and writes
-- the model of the intent classifier. This library models that tooling and proves what it guarantees.
--
-- The parts and their files:
--   Prelude (Tests, Lists, Texts, Results, Int, Bits): what the parts share. A text is the list of its
--     code points; `Result` carries which `raise` statement was reached; `ℤ` is an unbounded integer.
--   Tokenizer (Tables, Stem, Words): benchmarks/policy/vsr_bm25_tokenizer.py. `stem_english` is the
--     stemmer, step by step; `ascii_words`, `tokenize` and `tokenize_query` split and filter words.
--   Counter: collections.Counter as a list of keys with counts, as jaccard_reference.py uses it.
--   Jaccard (Counts, Rules): benchmarks/policy/jaccard_reference.py. `similarity_counts` and `matches`
--     compare the n-grams of two texts, `rule_matches` applies an OR, AND or NOR rule to a text.
--   Policy (Values, Reader, Signals, Validate, Header): benchmarks/policy/generate_keyword_header.py.
--     Values is what a policy loads to and what `str`, `int` and `strip` do with it; Reader is
--     `parse_scalar` and `load_policy`: Reader.Scalar reads a value, Reader.Cells holds the dicts and
--     lists under addresses, for the stack and a parent share them, Reader.Lines is the loop over the
--     lines and Reader.Load the function. Under Scalar, Fuel is the end of the recursion, Plain, Inline
--     and Bracketed are what is read of lists in brackets. Shape is the type of a policy; Cells.Store is
--     the invariant of the containers and Lines.Stack that of the stack; Lines.Kept, Lines.Steps and
--     Load.Accepted prove them kept by every line. Lines.Comments and
--     Lines.Decorated are about comments and blanks.
--     Written says how a policy is written and what it means by recursion, without a stack or addresses;
--     Written.Filled is the containers that it makes, Written.Resolved what these stand for, Loading,
--     Children, ReadBack and RoundTrip are how the lines make them. Signals finds the keyword
--     signals and their routes; Validate is `validate_policy`; Header is `emit_header`: the tables it
--     writes, and the C functions it writes over them, run on a text byte by byte.
--   Modules (Priorities, Selection): benchmarks/policy/generate_policy_modules.py. `methods_of` is
--     `methods`, after `load_policy`; `resolve_profile` and `selection_flags` choose the eBPF modules.
--   NgramPolicy (Bounds): benchmarks/policy/generate_jaccard_policy_header.py. `parse_ngram` is `parse`:
--     the rules, keywords and case-fold entries of the n-gram maps.
--   Bm25 (Streaming): benchmarks/policy/bm25_reference.py. `fixed_scores`, with the weight of a term as
--     the parameter `term_weight`.
--   Distill (Features, Scores, File): benchmarks/lora_distill/core.py. The feature hash, the integer
--     scores with the bound that the kernel's int32 relies on, and the model file, byte by byte.
--   Wrk (Quiescence): benchmarks/routing_wrk/wait_for_xsr_quiescence.py. The status text of the router,
--     and the loop that waits until the router has reaped every connection.
--   Fields (Split): texts of `key=value` between blanks, as both scripts that ask the router read them.
--   Profile: scripts/sk_profile_components.py and scripts/vsr_profile_components.py.
--     Profile.Double (Nearest, Quotient) is what the scripts do with floating-point numbers: a double is
--     the fraction it stands for. Profile.Command is what their command lines have in common: formats,
--     exits and rows of the tables.
--     Profile.Router is the first script: `aggregate_response` adds the rows of the CPUs up,
--     Router.Report is its report, Router.Render the command line. Router.Answer is what
--     `serve_profile_read` and `serve_profile_reset` of src/sk_router.c answer it; Router.Accept, Tally,
--     Sums, Order, Written, RoundTrip, Lines, Exchange, Exits, Means and Succeeds prove what becomes of
--     the answers.
--     Profile.Vsr is the second script: Vsr.Decimal reads a counter, Vsr.Snapshot the lines of a
--     snapshot, Vsr.Summary takes the difference of two, Vsr.Render is the command line; Vsr.Printed,
--     Stored, Names, Once, Window, Joined and Succeeds are the proofs.
--   Tests: runs at concrete inputs, and the theorems at inputs that meet their hypotheses.
--
-- How the parts meet: Policy.Reader reads the fields that Policy.Validate, Modules and NgramPolicy
-- take; Modules finds the signals through Policy.Signals; Policy.Header takes the entries of
-- the routes that Policy.Validate returns; NgramPolicy takes its grams from Jaccard; Jaccard counts
-- with Counter. Profile.Router and Wrk split their fields with Fields; the command `read` of
-- Profile.Router asks the router, whose answers Router.Answer writes; Profile.Vsr takes the metrics, the
-- doubles and the rows of its tables from Profile.Router, Profile.Double and Profile.Command.
--
-- Parameters: `from_json` (the `json` module, for the name of a file that ends in `.json`) in
-- Policy.Reader, which takes the text of a file with the line ends that Python makes of it;
-- `max_abs` (`np.max(np.abs(…))` of an integer array) in Distill; `to_lower` (Python's Unicode lower
-- case) and `is_word_char` (the word characters of `re`) in Jaccard; `show` (the `str` of a list or
-- a dict) in Policy and Modules; MAX_KEYWORDS, which the includer of the generated header defines;
-- the answers of the status socket in Wrk, one for each poll before the deadline; in NgramPolicy
-- `to_lower`, `to_upper`, the reading of a `Decimal` and the number of code points. In Profile the
-- parameters are the sum of floating-point numbers, of which Python 3.12 changed the rounding, the
-- text of `json.dump`, what sockets, servers and files answer, and whether a file can be written;
-- `argparse` is taken to have parsed the command line. In Policy, Modules and NgramPolicy the names
-- of methods, operators and routes, and `int`, are read as ASCII text.
--
-- Loops are structural recursion, on the text, the list or the number of turns; four take fuel.
-- `scalar_fuel` takes one more than the length of the text, which every list in brackets makes shorter;
-- `slot_value` takes the number of containers, each of which refers to later ones only.
-- `show_nat`, which prints a number, takes one more than the number, which is at least the number of its
-- digits, and `log2` takes the number itself, which more halvings than it has bits cannot use up.
--
-- Not modelled: the eBPF programs and the router, which are C, but for the answers above; floating point
-- elsewhere than in Profile (the BM25 weights, softmax, the percentiles); the limit of 4300 digits that
-- Python sets for `int` and `str`; exponents beyond the range of `decimal`; Unicode tables; the `json`
-- module and the parser of the command line; `predict`, which is one call of numpy's argmax; what runs
-- other programs.
pub mod Prelude
pub mod Tokenizer
pub mod Counter
pub mod Jaccard
pub mod Policy
pub mod Modules
pub mod NgramPolicy
pub mod Bm25
pub mod Fields
pub mod Profile
pub mod Distill
pub mod Wrk
mod Tests
