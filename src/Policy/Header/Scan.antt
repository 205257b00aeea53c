-- ===== src/Policy/Header/Scan.antt =====
-- What the generated matcher knows of the bytes it has read.
use xsr.Prelude.{
  &&-eq-true, ==_iff, Bool, Bool-cases, Text, [], arith, bit_and, drop, false, get_or,
  if◌then◌else◌, inl, inr, leb, ltb, refl, subst, suc, true, zero, ℕ, ◌%◌, ◌&&◌, ◌+◌, ◌-◌, ◌<◌,
  ◌==◌, ◌^◌, ◌||◌, ◌∷◌, ◌≡◌, ◌≤◌,
}
use xsr.Policy.Header.{
  State, Tables, keyword_char, store, set_match, score_keyword, keyword_score_generated, score_loop,
  score_text, cleared,
}

-- The text read behind what was read before, the latest byte first.
abbrev pub reverse_onto : Text → Text → Text
reverse_onto [] past = past
reverse_onto (c ∷ bytes) past = reverse_onto bytes (c ∷ past)

module _ (max_keywords : ℕ) (t : Tables) where
  -- The last `p` bytes read, the latest first in `past`, are the first `p` of the keyword `i`.
  abbrev pub Ends : ℕ → ℕ → Text → Type 0
  Ends i zero past = Unit
  Ends i (suc p) [] = ⊥
  Ends i (suc p) (c ∷ past) = (c ≡ keyword_char max_keywords t i p) × Ends i p past

  -- A keyword of the route has been read, whatever was read since.
  pub record WasRead (is_coding : Bool) (past : Text) : Type 0 where
    pub index : ℕ
    pub since : ℕ
    pub in_map : index < max_keywords
    pub in_count : index < t.count
    pub non_empty_length : 0 < get_or t.lens index 0
    pub route : (get_or t.is_math index 0 == 0) ≡ is_coding
    pub ended : Ends index (get_or t.lens index 0) (drop since past)

  -- The matches of a state are owed to keywords read.
  pub record Owed (past : Text) (s : State) : Type 0 where
    pub math_read : s.matched_math ≡ true → WasRead false past
    pub coding_read : s.matched_coding ≡ true → WasRead true past

  -- The indices that the loop never advances.
  abbrev pub is_dead : ℕ → Bool
  is_dead i =
      leb max_keywords i
      || leb t.count i
      || (get_or t.lens i 0 == 0 || ltb t.max_len (get_or t.lens i 0))

  -- A state that fits the bytes read.
  pub record Fits (past : Text) (s : State) : Type 0 where
    pub ends : (i : ℕ) → Ends i (s.positions i) past
    pub idle : (i : ℕ) → is_dead i ≡ true → s.positions i ≡ 0
    pub owed : Owed past s

  -- Within the loop of one byte `c`, when the indices below `k` have seen it.
  record Between (c : ℕ) (past : Text) (k : ℕ) (s : State) : Type 0 where
    done : (i : ℕ) → i < k → Ends i (s.positions i) (c ∷ past)
    waiting : (i : ℕ) → k ≤ i → Ends i (s.positions i) past
    still : (i : ℕ) → is_dead i ≡ true → s.positions i ≡ 0
    owed_so_far : Owed (c ∷ past) s

  pub cleared-Fits : Fits [] cleared
  cleared-Fits = record {
    ends = λ i. tt;
    idle = λ i h. refl;
    owed = record { math_read = λ h. cc; coding_read = λ h. cc };
  }

  read_later :
      (is_coding : Bool) (c : ℕ) (past : Text)
      → WasRead is_coding past
      → WasRead is_coding (c ∷ past)
  read_later is_coding c past w = record {
    index = w.index;
    since = suc w.since;
    in_map = w.in_map;
    in_count = w.in_count;
    non_empty_length = w.non_empty_length;
    route = w.route;
    ended = w.ended;
  }

  Owed-later : (c : ℕ) (past : Text) (s : State) → Owed past s → Owed (c ∷ past) s
  Owed-later c past s o = record {
    math_read = λ h. read_later false c past (o.math_read h);
    coding_read = λ h. read_later true c past (o.coding_read h);
  }

  at_start : (c : ℕ) (past : Text) (s : State) → Fits past s → Between c past 0 s
  at_start c past s f = record {
    done = λ i h. absurd (omega arith);
    waiting = λ i h. f.ends i;
    still = f.idle;
    owed_so_far = Owed-later c past s f.owed;
  }

  at_stop :
      (c : ℕ) (past : Text) (k : ℕ) (s : State)
      → ((i : ℕ) → k ≤ i → is_dead i ≡ true)
      → Between c past k s
      → Fits (c ∷ past) s
  at_stop c past k s dead b = record {
    ends = λ i. elim (Bool-cases (ltb i k)) [
      | inl below ↦ b.done i (ground (arith, below))
      | inr above ↦ rw (b.still i (dead i (ground (arith, above)))) tt
    ];
    idle = b.still;
    owed = b.owed_so_far;
  }

  -- One index stores its place, which fits the byte.
  stored :
      (c : ℕ) (past : Text) (k place : ℕ) (s after : State)
      → Between c past k s
      → after.positions ≡ s.positions
      → Owed (c ∷ past) after
      → is_dead k ≡ false
      → Ends k place (c ∷ past)
      → Between c past (k + 1) (store max_keywords t k place after)
  stored c past k place s after b same o alive fit = record {
    done = λ i h. elim (Bool-cases (i == k)) [
      | inl here ↦ rw here (rw ((==_iff i k).0 here) fit)
      | inr other ↦ rw (other, same) (b.done i (ground (arith, h, other)))
    ];
    waiting = λ i h.
        (let other : (i == k) ≡ false = ground arith in
          rw (other, same) (b.waiting i (omega arith)));
    still = λ i h. elim (Bool-cases (i == k)) [
      | inl here ↦ absurd (cc (alive, rw ((==_iff i k).0 here) at h))
      | inr other ↦ rw (other, same) (b.still i h)
    ];
    owed_so_far = record { math_read = o.math_read; coding_read = o.coding_read };
  }

  set_match-positions : (k : ℕ) (s : State) → (set_match max_keywords t k s).positions ≡ s.positions
  unfolding set_match
  set_match-positions k s = ground arith

  -- A keyword that ends at the byte is owed a match.
  matched :
      (c : ℕ) (past : Text) (k : ℕ) (s : State)
      → k < max_keywords
      → k < t.count
      → 0 < get_or t.lens k 0
      → Ends k (get_or t.lens k 0) (c ∷ past)
      → Owed (c ∷ past) s
      → Owed (c ∷ past) (set_match max_keywords t k s)
  unfolding set_match
  matched c past k s m n some_len ends o = elim (Bool-cases (get_or t.is_math k 0 == 0)) [
    | inl e ↦ rw e (record {
      math_read = o.math_read;
      coding_read = λ h. record {
        index = k;
        since = 0;
        in_map = m;
        in_count = n;
        non_empty_length = some_len;
        route = e;
        ended = ends;
      };
    })
    | inr e ↦ rw e (record {
      coding_read = o.coding_read;
      math_read = λ h. record {
        index = k;
        since = 0;
        in_map = m;
        in_count = n;
        non_empty_length = some_len;
        route = e;
        ended = ends;
      };
    })
  ]

  -- An index whose keyword cannot be in the table is passed over.
  passed :
      (c : ℕ) (past : Text) (k : ℕ) (s : State)
      → Between c past k s
      → is_dead k ≡ true
      → Between c past (k + 1) s
  passed c past k s b dead = record {
    done = λ i h. elim (Bool-cases (i == k)) [
      | inl here ↦ rw ((==_iff i k).0 here) (rw (b.still k dead) tt)
      | inr other ↦ b.done i (ground (arith, h, other))
    ];
    waiting = λ i h. b.waiting i (omega arith);
    still = b.still;
    owed_so_far = b.owed_so_far;
  }

  module _ (narrow : (i : ℕ) → get_or t.lens i 0 < 2 ^ 8) where
    advance_hit :
        (c : ℕ) (past : Text) (k : ℕ) (s : State)
        → k < max_keywords
        → k < t.count
        → is_dead k ≡ false
        → s.positions k < get_or t.lens k 0
        → c ≡ keyword_char max_keywords t k (s.positions k)
        → Between c past k s
        → Between c past (k + 1) (
            let next = (s.positions k + 1) % 2 ^ 8 in
            if next == get_or t.lens k 0
            then store max_keywords t k 0 (set_match max_keywords t k s)
            else store max_keywords t k next s)
    advance_hit c past k s m n alive below same b =
        let next : (s.positions k + 1) % 2 ^ 8 ≡ suc (s.positions k) = omega (arith, narrow k) in
        let fit : Ends k (suc (s.positions k)) (c ∷ past) = (same, b.waiting k (omega arith)) in
        rw next (elim (Bool-cases (suc (s.positions k) == get_or t.lens k 0)) [
          | inl full ↦
              let whole : suc (s.positions k) ≡ get_or t.lens k 0 = (==_iff _ _).0 full in
              rw full (
                stored c past k 0 s (set_match max_keywords t k s) b (set_match-positions k s)
                  (matched c past k s m n (omega arith) (subst (λ p. Ends k p (c ∷ past)) whole fit)
                    b.owed_so_far)
                  alive tt)
          | inr more ↦
              rw more (stored c past k (suc (s.positions k)) s s b refl b.owed_so_far alive fit)
        ])

    advance_miss :
        (c : ℕ) (past : Text) (k : ℕ) (s : State)
        → is_dead k ≡ false
        → Between c past k s
        → Between c past
            (k + 1)
            (store max_keywords t k (if c == keyword_char max_keywords t k 0 then 1 else 0) s)
    advance_miss c past k s alive b = elim (Bool-cases (c == keyword_char max_keywords t k 0)) [
      | inl first ↦
          rw first (stored c past k 1 s s b refl b.owed_so_far alive ((==_iff _ _).0 first, tt))
      | inr other ↦ rw other (stored c past k 0 s s b refl b.owed_so_far alive tt)
    ]

    advance :
        (c : ℕ) (past : Text) (k : ℕ) (s : State)
        → k < max_keywords
        → k < t.count
        → Between c past k s
        → Between c past (k + 1) (score_keyword max_keywords t k c s)
    unfolding score_keyword
    advance c past k s m n b =
        let len = get_or t.lens k 0 in
        let char = keyword_char max_keywords t k (s.positions k) in
        elim (Bool-cases (len == 0 || ltb t.max_len len)) [
          | inl dead ↦ rw dead (passed c past k s b (ground (arith, dead)))
          | inr e ↦
              let alive : is_dead k ≡ false = ground (arith, e) in
              elim (Bool-cases (ltb (s.positions k) len && c == char)) [
                | inl hit ↦
                    let parts : (ltb (s.positions k) len ≡ true) × ((c == char) ≡ true) =
                      &&-eq-true _ _ hit in
                    rw (e, hit)
                      (advance_hit c past k s m n alive (ground (arith, parts))
                        ((==_iff _ _).0 parts.1) b)
                | inr miss ↦ rw (e, miss) (advance_miss c past k s alive b)
              ]
        ]

    module _ (masked : (i : ℕ) → i < max_keywords → bit_and i (max_keywords - 1) ≡ i) where
      score_loop-Fits :
          (times k c : ℕ) (past : Text) (s : State)
          → k + times ≡ max_keywords
          → Between c past k s
          → Fits (c ∷ past) (score_loop max_keywords t times k c s)
      unfolding score_loop
      score_loop-Fits zero k c past s sum b = at_stop c past k s (λ i h. ground (arith, h, sum)) b
      score_loop-Fits (suc times) k c past s sum b =
          rw (masked k (omega arith)) (elim (Bool-cases (leb t.count k)) [
            | inl stop ↦ rw stop (at_stop c past k s (λ i h. ground (arith, h, stop)) b)
            | inr more ↦ rw more (
                score_loop-Fits times (k + 1) c past (score_keyword max_keywords t k c s)
                  (omega arith) (advance c past k s (omega arith) (ground (arith, more)) b))
          ])

      pub score_text-Fits :
          (bytes past : Text) (s : State)
          → Fits past s
          → Fits (reverse_onto bytes past) (score_text max_keywords t bytes s)
      unfolding score_text keyword_score_generated
      score_text-Fits [] past s f = f
      score_text-Fits (c ∷ bytes) past s f =
          score_text-Fits bytes (c ∷ past) (keyword_score_generated max_keywords t c s)
            (score_loop-Fits max_keywords 0 c past s (omega arith) (at_start c past s f))
