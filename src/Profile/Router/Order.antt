-- ===== src/Profile/Router/Order.antt =====
-- The order of the CPU rows does not matter to `aggregate_response` of scripts/sk_profile_components.py.
use xsr.Prelude.{
  List, Text, [], ap, arith, codes, false, find_key, leb, length, ok, refl, refuse, subst, suc,
  true, ||-eq-false, ℕ, ◌==◌, ◌>>=◌, ◌>>◌, ◌||◌, ◌∙◌, ◌∷◌, ◌≡◌,
}
use xsr.Profile.Router.Accept.{Accept-read_totals, read_totals-Accept}
use xsr.Profile.Router.Sums.{metrics_path, same_totals}
use mathlib.Core.List.{Permᴰ}
use mathlib.Core.List.Permᴰ.{nil, cons, swap, trans}
use xsr.Profile.Router.{
  add_lines, Totals, Metrics, stages, has_cpu, add_row, invalid_cpu_row, natural_of, or_error,
  parse_fields, read_totals, no_metrics,
}
use xsr.Profile.Router.Tally.{row-Taken, take_row, totals_of, behind_row, measured, plus}

-- Only which CPUs are seen counts, not their order.
add_lines-seen :
    (cpu_count : ℕ) (seen others : List ℕ) (totals : Totals) (lines : List Text)
    → ((c : ℕ) → has_cpu seen c ≡ has_cpu others c)
    → add_lines cpu_count seen totals lines ≡ add_lines cpu_count others totals lines
unfolding add_lines
add_lines-seen cpu_count seen others totals [] h = refl
add_lines-seen cpu_count seen others totals (line ∷ lines) h = λ i. parse_fields line >>= λ row.
    or_error (natural_of (find_key row (codes "cpu"))) invalid_cpu_row >>= λ cpu.
    refuse (leb cpu_count cpu || h cpu i) invalid_cpu_row
    >> (add_row row totals >>= λ next.
        add_lines-seen cpu_count (cpu ∷ seen) (cpu ∷ others) next lines
          (λ c. ap (λ b. (cpu == c) || b) (h c)) i)

seen_swapped : (a b c : ℕ) (seen : List ℕ) → has_cpu (a ∷ b ∷ seen) c ≡ has_cpu (b ∷ a ∷ seen) c
seen_swapped a b c seen = ground arith

not_among :
    (a b : ℕ) (seen : List ℕ)
    → (b == a) ≡ false
    → has_cpu seen b ≡ false
    → has_cpu (a ∷ seen) b ≡ false
not_among a b seen h k = ground arith

plus_swap : (a b c : Metrics) → plus (plus a b) c ≡ plus (plus a c) b
plus_swap a b c = metrics_path (omega arith) (omega arith)

swap_rows :
    (cpu_count : ℕ) (seen : List ℕ) (f : Text → Metrics) (a b : Text) (lines : List Text)
    {totals : Totals}
    → add_lines cpu_count seen (totals_of stages f) (a ∷ b ∷ lines) ≡ ok totals
    → add_lines cpu_count seen (totals_of stages f) (b ∷ a ∷ lines) ≡ ok totals
swap_rows cpu_count seen f a b lines h =
    let one = row-Taken cpu_count seen f a (b ∷ lines) h in
    let two =
      row-Taken cpu_count (one.row.cpu ∷ seen) (behind_row f one.row.fields) b lines one.later in
    let unseen = ||-eq-false _ _ two.unseen in
    take_row cpu_count seen f b (a ∷ lines) (record {
      row = two.row;
      unseen = unseen.1;
      later =
          take_row cpu_count (two.row.cpu ∷ seen) (behind_row f two.row.fields) a lines (record {
            row = one.row;
            unseen = not_among two.row.cpu one.row.cpu seen unseen.0 one.unseen;
            later =
                add_lines-seen cpu_count _ (two.row.cpu ∷ one.row.cpu ∷ seen) _ lines
                  (λ c. seen_swapped one.row.cpu two.row.cpu c seen)
                ∙ ap (λ t. add_lines cpu_count (two.row.cpu ∷ one.row.cpu ∷ seen) t lines)
                    (same_totals λ stage.
                      plus_swap (f stage) (measured two.row.fields stage)
                        (measured one.row.fields stage))
                ∙ two.later;
          });
    })

reordered_rows :
    (cpu_count : ℕ) (seen : List ℕ) (f : Text → Metrics) (totals : Totals)
    {lines others : List Text}
    → Permᴰ lines others
    → add_lines cpu_count seen (totals_of stages f) lines ≡ ok totals
    → add_lines cpu_count seen (totals_of stages f) others ≡ ok totals
reordered_rows cpu_count seen f totals nil h = h
reordered_rows cpu_count seen f totals (cons {a} {b} {l₁} {l₂} e p) h =
    let t = row-Taken cpu_count seen f a l₁ h in
    subst (λ x. add_lines cpu_count seen (totals_of stages f) (x ∷ l₂) ≡ ok totals) e
      (take_row cpu_count seen f a l₂ (record {
        row = t.row;
        unseen = t.unseen;
        later =
            reordered_rows cpu_count (t.row.cpu ∷ seen) (behind_row f t.row.fields) totals p
              t.later;
      }))
reordered_rows cpu_count seen f totals (swap {a} {b} {a'} {b'} {l} e d) h =
    subst (λ x. add_lines cpu_count seen (totals_of stages f) x ≡ ok totals) (λ i. d i ∷ e i ∷ l)
      (swap_rows cpu_count seen f a b l h)
reordered_rows cpu_count seen f totals (trans p q) h =
    reordered_rows cpu_count seen f totals q (reordered_rows cpu_count seen f totals p h)

length-reordered : {lines others : List Text} → Permᴰ lines others → length lines ≡ length others
length-reordered nil = refl
length-reordered (cons e p) = ap suc (length-reordered p)
length-reordered (swap e d) = refl
length-reordered (trans p q) = length-reordered p ∙ length-reordered q

-- The order of the CPU rows makes no difference: an answer whose rows are reordered is accepted like the
-- answer, with the same totals.
pub read_totals-reordered :
    (first : Text) (lines others : List Text) (cpu_count : ℕ) (totals : Totals)
    → Permᴰ lines others
    → read_totals (first ∷ lines) ≡ ok (cpu_count, totals)
    → read_totals (first ∷ others) ≡ ok (cpu_count, totals)
read_totals-reordered first lines others cpu_count totals p h =
    let a = read_totals-Accept first lines cpu_count totals h in
    Accept-read_totals first others cpu_count totals (record {
      header = a.header;
      rows = subst (λ n. (n == cpu_count) ≡ true) (length-reordered p) a.rows;
      found = reordered_rows cpu_count [] (λ stage. no_metrics) totals p a.found;
      counted = a.counted;
    })
