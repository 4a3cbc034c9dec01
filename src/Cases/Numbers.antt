-- ===== src/Cases/Numbers.antt =====
-- How `parse_cases` numbers testcases and subtasks, and what it puts into them.
use task_maker.Prelude.{
  ℕ, zero, suc, ◌<◌, ◌≡◌, refl, sym, ap, ◌∙◌, subst, false, List, [], ◌∷◌, ◌++◌, append-nil,
  append_assoc, Dict, keys, insert, nat_eq, ◌==◌, length, All, All-append, All-map, Bool-cases, inl,
  inr, arith,
}
use task_maker.Formats.{
  TestCase, Subtask, get_write_input_file, get_write_output_file, agree, given, named,
}
use task_maker.Cases.{Parser, change_last, is_nil}

-- 0, ..., n - 1
abbrev pub upto : ℕ → List ℕ
upto zero = []
upto (suc n) = upto n ++ n ∷ []

pub upto-lt : (n : ℕ) → All (λ j. j < n) (upto n)
upto-lt zero = tt
upto-lt (suc n) =
    All-append (λ j. j < suc n) (upto n) (n ∷ [])
      (All-map (λ j. j < n) (λ j. j < suc n) (upto n) (λ j h. omega arith) (upto-lt n))
      (omega arith, tt)

-- A key above all others goes to the end.
pub insert-last :
    {V : Type 0} (k : ℕ) (v : V) (d : Dict ℕ V)
    → All (λ j. j < k) (keys d)
    → insert k v d ≡ d ++ (k, v) ∷ []
unfolding insert
insert-last k v [] h = refl
insert-last k v ((j, w) ∷ d) h = elim (Bool-cases (j == k)) [
  | inl p ↦ absurd (let q : j ≡ k = (nat_eq.beq_iff j k).0 p in let r : j < k = h.0 in omega arith)
  | inr p ↦ rw p (ap (λ l. (j, w) ∷ l) (insert-last k v d h.1))
]

pub keys-append : {V : Type 0} (d e : Dict ℕ V) → keys (d ++ e) ≡ keys d ++ keys e
keys-append [] e = refl
keys-append ((k, v) ∷ d) e = ap (λ l. k ∷ l) (keys-append d e)

All-right : (P : ℕ → Type 0) (l m : List ℕ) → All P (l ++ m) → All P m
All-right P [] m h = h
All-right P (x ∷ l) m h = All-right P l m h.1

-- A testcase that writes to the files of its number, and has either a generator or a static input.
abbrev pub Row : ℕ → TestCase → Type 0
Row k t =
    (t.write_input_to ≡ get_write_input_file k)
    × (t.write_output_to ≡ get_write_output_file k)
    × (agree (given t.generator) (named t.input_file) ≡ false)

abbrev pub Extends : {A : Type 0} → List A → List A → Type 0
Extends {A} base l = (own : List A) × (l ≡ base ++ own)

module _ {F : Type 0} where
  -- The numbers of all testcases, in order.
  abbrev pub numbers : List (Subtask F) → List ℕ
  numbers [] = []
  numbers (st ∷ sts) = keys st.testcases ++ numbers sts

  abbrev pub Rows : Subtask F → Type 0
  Rows st = All (λ kt. Row kt.0 kt.1) st.testcases

  pub record WellFormed (p : Parser F) : Type 0 where
    pub numbered : numbers p.subtasks ≡ upto p.tc_num
    pub counted : p.st_count ≡ length p.subtasks
    pub inherits : All (λ st. Extends p.constraints st.constraints) p.subtasks
    pub rows : All Rows p.subtasks

module _ {A : Type 0} (f : A → A) where
  pub length-change_last : (l : List A) → length (change_last f l) ≡ length l
  length-change_last [] = refl
  length-change_last (x ∷ []) = refl
  length-change_last (x ∷ y ∷ l) = ap suc (length-change_last (y ∷ l))

  pub All-change_last :
      (P : A → Type 0)
      → ((x : A) → P x → P (f x))
      → (l : List A) → All P l
      → All P (change_last f l)
  All-change_last P h [] a = tt
  All-change_last P h (x ∷ []) a = (h x a.0, tt)
  All-change_last P h (x ∷ y ∷ l) a = (a.0, All-change_last P h (y ∷ l) a.1)

module _ {F : Type 0} where
  pub numbers-append : (l m : List (Subtask F)) → numbers (l ++ m) ≡ numbers l ++ numbers m
  numbers-append [] m = refl
  numbers-append (st ∷ l) m =
      ap (λ r. keys st.testcases ++ r) (numbers-append l m)
      ∙ sym (append_assoc (keys st.testcases) (numbers l) (numbers m))

  pub numbers-change_last :
      (f : Subtask F → Subtask F)
      → ((st : Subtask F) → (f st).testcases ≡ st.testcases)
      → (l : List (Subtask F)) → numbers (change_last f l) ≡ numbers l
  numbers-change_last f h [] = refl
  numbers-change_last f h (st ∷ []) = rw (h st) refl
  numbers-change_last f h (st ∷ y ∷ l) =
      ap (λ r. keys st.testcases ++ r) (numbers-change_last f h (y ∷ l))

  abbrev with_case : ℕ → TestCase → Subtask F → Subtask F
  with_case k t st = record st { testcases = insert k t st.testcases }

  -- The numbers below `k` of a list's last subtask, and of all of it.
  pub numbers-with_case :
      (k : ℕ) (t : TestCase) (l : List (Subtask F))
      → is_nil l ≡ false
      → All (λ j. j < k) (numbers l)
      → numbers (change_last (with_case k t) l) ≡ numbers l ++ k ∷ []
  numbers-with_case k t [] n h = absurd cc
  numbers-with_case k t (st ∷ []) n h =
      ap (λ d. keys d ++ [])
        (insert-last k t st.testcases (subst (All (λ j. j < k)) (append-nil (keys st.testcases)) h))
      ∙ append-nil _
      ∙ keys-append st.testcases ((k, t) ∷ [])
      ∙ ap (λ l. l ++ k ∷ []) (sym (append-nil (keys st.testcases)))
  numbers-with_case k t (st ∷ y ∷ l) n h =
      ap (λ r. keys st.testcases ++ r)
        (numbers-with_case k t (y ∷ l) refl
          (All-right (λ j. j < k) (keys st.testcases) (numbers (y ∷ l)) h))
      ∙ sym (append_assoc (keys st.testcases) (numbers (y ∷ l)) (k ∷ []))
