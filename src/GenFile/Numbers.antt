-- ===== src/GenFile/Numbers.antt =====
-- How gen/GEN is numbered.
use task_maker.Prelude.{
  ℕ, zero, suc, ◌+◌, ◌-◌, ◌<◌, ◌≡◌, refl, sym, ap, ◌∙◌, subst, String, List, [], ◌∷◌, ◌++◌,
  append-nil, append_assoc, Dict, keys, values, insert, nat_eq, nat_beq, All, All-append, All-map,
  arith, Bool-cases, inl, inr, Holds, Holds->>=, Holds-if, Holds-ok, starts_with, is_empty, strip,
  before, if◌then◌else◌,
}
use task_maker.Floats.{Floats}
use task_maker.Formats.{Generator, TestCase, Subtask}
use task_maker.Cases.{Setting}
use task_maker.Cases.Numbers.{upto, upto-lt, insert-last, keys-append, numbers, numbers-append}
use task_maker.GenFile.{
  Reader, create_subtask, create_at, put_current, ensure_subtask, read_line, read_lines, single,
  new_reader, read_file,
}

pred_zero : (k : ℕ) → k ≡ 0 → k - 1 ≡ suc k - 1
pred_zero k e = omega arith

pred_suc : (n k : ℕ) → k ≡ suc n → suc n ≡ suc k - 1
pred_suc n k e = omega arith

pred_of : (n k : ℕ) → k ≡ suc n → k - 1 ≡ n
pred_of n k e = omega arith

-- first, first + 1, ..., `count` of them
abbrev pub run_of : ℕ → ℕ → List ℕ
run_of first zero = []
run_of first (suc count) = run_of first count ++ (first + count) ∷ []

run_of-lt : (first count : ℕ) → All (λ j. j < first + count) (run_of first count)
run_of-lt first zero = tt
run_of-lt first (suc count) =
    All-append (λ j. j < first + suc count) (run_of first count) _
      (All-map (λ j. j < first + count) (λ j. j < first + suc count) (run_of first count)
        (λ j h. omega arith) (run_of-lt first count))
      (omega arith, tt)

All-right : (P : ℕ → Type 0) (l m : List ℕ) → All P (l ++ m) → All P m
All-right P [] m h = h
All-right P (x ∷ l) m h = All-right P l m h.1

values-append : {V : Type 0} (d e : Dict ℕ V) → values (d ++ e) ≡ values d ++ values e
values-append [] e = refl
values-append ((k, v) ∷ d) e = ap (λ l. v ∷ l) (values-append d e)

module _ {F : Type 0} where
  -- The testcases so far have consecutive numbers from `first` on, and the finished subtasks too, from 0.
  pub record Consecutive (r : Reader F) : Type 0 where
    pub first : ℕ
    pub count : ℕ
    pub next : r.testcase_num ≡ first + count
    pub cases : numbers (values r.subtasks) ++ keys r.current_testcases ≡ run_of first count
    pub order : keys r.subtasks ≡ upto (r.st_count - 1)

  abbrev Con : Reader F → Type 0
  Con r = Consecutive r

  Consecutive-put_current : (t : TestCase) (r : Reader F) → Con r → Con (put_current t r)
  Consecutive-put_current t r c = record {
    first = c.first;
    count = suc c.count;
    next = let n = c.next in omega (arith, n);
    cases =
        ap (λ d. numbers (values r.subtasks) ++ keys d)
          (insert-last r.testcase_num t r.current_testcases below)
        ∙ ap (λ l. numbers (values r.subtasks) ++ l) (keys-append r.current_testcases _)
        ∙ sym (append_assoc (numbers (values r.subtasks)) (keys r.current_testcases) _)
        ∙ ap (λ l. l ++ r.testcase_num ∷ []) c.cases
        ∙ ap (λ k. run_of c.first c.count ++ k ∷ []) c.next;
    order = c.order;
  }
    where
      below : All (λ j. j < r.testcase_num) (keys r.current_testcases)
      below =
          All-right (λ j. j < r.testcase_num) (numbers (values r.subtasks))
            (keys r.current_testcases)
            (subst (λ k. All (λ j. j < k) (numbers (values r.subtasks) ++ keys r.current_testcases))
              (sym c.next)
              (subst (All (λ j. j < c.first + c.count)) (sym c.cases) (run_of-lt c.first c.count)))

  Consecutive-ensure_subtask : (r : Reader F) → Con r → Con (ensure_subtask r)
  Consecutive-ensure_subtask r c = record {
    first = c.first;
    count = c.count;
    next = c.next;
    cases = c.cases;
    order = c.order ∙ ap upto same;
  }
    where
      same : r.st_count - 1 ≡ (if nat_beq r.st_count 0 then 1 else r.st_count) - 1
      same = ground arith

  -- The subtask that is created takes the current testcases, behind those of the others.
  taken :
      (n : ℕ) (st : Subtask F) (d : Dict ℕ (Subtask F))
      → keys d ≡ upto n
      → insert n st d ≡ d ++ (n, st) ∷ []
  taken n st d e = insert-last n st d (subst (All (λ j. j < n)) (sym e) (upto-lt n))

  created :
      (n : ℕ) (st : Subtask F) (d : Dict ℕ (Subtask F))
      → keys d ≡ upto n
      → numbers (values (insert n st d)) ≡ numbers (values d) ++ keys st.testcases
  created n st d e =
      ap (λ x. numbers (values x)) (taken n st d e)
      ∙ ap numbers (values-append d _)
      ∙ numbers-append (values d) _
      ∙ ap (λ l. numbers (values d) ++ l) (append-nil (keys st.testcases))

  -- Before the first subtask the testcases are dropped.
  Consecutive-opened :
      (score : F) (n : ℕ) (r : Reader F)
      → r.st_count ≡ n
      → Con r
      → Con (record (create_at n r) {
        st_count = suc r.st_count;
        current_testcases = [];
        current_score = score;
      })
  Consecutive-opened score zero r e c = record {
    first = r.testcase_num;
    count = 0;
    next = omega arith;
    cases =
        append-nil _
        ∙ ap (λ d. numbers (values d)) (none_yet r.subtasks (c.order ∙ ap (λ k. upto (k - 1)) e));
    order = c.order ∙ ap upto (pred_zero r.st_count e);
  }
    where
      none_yet : (d : Dict ℕ (Subtask F)) → keys d ≡ [] → d ≡ []
      none_yet [] h = refl
      none_yet ((k, st) ∷ d) h = absurd cc
  Consecutive-opened score (suc n) r e c = record {
    first = c.first;
    count = c.count;
    next = c.next;
    cases = append-nil _ ∙ created n _ r.subtasks order' ∙ c.cases;
    order =
        ap keys (taken n _ r.subtasks order')
        ∙ keys-append r.subtasks _
        ∙ ap (λ l. l ++ n ∷ []) order'
        ∙ ap upto (pred_suc n r.st_count e);
  }
    where
      order' : keys r.subtasks ≡ upto n
      order' = c.order ∙ ap upto (pred_of n r.st_count e)

  -- The numbers of all testcases in the subtasks are consecutive, those of the subtasks begin with 0.
  pub Numbered : Reader F → Type 0
  Numbered r =
      ((first : ℕ) × (count : ℕ) × (numbers (values r.subtasks) ≡ run_of first count))
      × (keys r.subtasks ≡ upto r.st_count)

  Numbered-create_subtask :
      (n : ℕ) (r : Reader F) → r.st_count ≡ suc n → Con r → Numbered (create_at r.st_count r)
  unfolding Numbered
  Numbered-create_subtask n r e c = rw e (
    (c.first, c.count, created n _ r.subtasks order' ∙ c.cases),
    ap keys (taken n _ r.subtasks order') ∙ keys-append r.subtasks _ ∙ ap (λ l. l ++ n ∷ []) order',
  )
    where
      order' : keys r.subtasks ≡ upto n
      order' = c.order ∙ ap upto (pred_of n r.st_count e)

module _ {F : Type 0} (s : Setting) (fl : Floats F) (generator validator : Generator) where
  abbrev Cons : Reader F → Type 0
  Cons r = Consecutive r

  abbrev Nums : Reader F → Type 0
  Nums r = Numbered r

  Consecutive-read_line :
      (line : String) (r : Reader F)
      → Consecutive r
      → Holds Cons (read_line s fl generator validator line r)
  unfolding read_line create_subtask
  Consecutive-read_line line r c =
      Holds-if Cons (starts_with line "#ST:") _ _
        (Holds->>= Cons _ _
          (λ score q. Holds-ok Cons _ (Consecutive-opened score r.st_count r refl c)))
        (Holds-if Cons (starts_with line "#COPY:") _ _
          (Holds->>= Cons _ _ (λ t q. Holds-ok Cons _ (Consecutive-put_current t r c)))
          (Holds-if Cons (is_empty (strip (before b'#' line))) _ _ (Holds-ok Cons r c) (
            Holds->>= Cons _ _ (λ args q. Holds->>= Cons _ _ (λ t q'.
              Holds-ok Cons _
                (Consecutive-put_current t (ensure_subtask r) (Consecutive-ensure_subtask r c)))))))

  Consecutive-read_lines :
      (lines : List String) (r : Reader F)
      → Consecutive r
      → Holds Cons (read_lines s fl generator validator lines r)
  unfolding read_lines
  Consecutive-read_lines [] r c = Holds-ok Cons r c
  Consecutive-read_lines (line ∷ lines) r c =
      Holds->>= Cons _ _
        (λ q e. Consecutive-read_lines lines q ((Consecutive-read_line line r c).at q e))

  keys-single : (d : Dict ℕ (Subtask F)) → keys (single s fl generator validator d) ≡ keys d
  keys-single [] = refl
  keys-single ((k, st) ∷ []) = elim (Bool-cases (fl.eq st.max_score fl.zero)) [
    | inl e ↦ rw e refl
    | inr e ↦ rw e refl
  ]
  keys-single (x ∷ y ∷ d) = refl

  numbers-single :
      (d : Dict ℕ (Subtask F))
      → numbers (values (single s fl generator validator d)) ≡ numbers (values d)
  numbers-single [] = refl
  numbers-single ((k, st) ∷ []) = elim (Bool-cases (fl.eq st.max_score fl.zero)) [
    | inl e ↦ rw e refl
    | inr e ↦ rw e refl
  ]
  numbers-single (x ∷ y ∷ d) = refl

  one_at_least : (n : ℕ) → (if nat_beq n 0 then 1 else n) ≡ suc ((if nat_beq n 0 then 1 else n) - 1)
  one_at_least n = ground arith

  -- Whenever gen/GEN is read, the subtasks are numbered 0, 1, 2, ..., and the testcases of all of them
  -- together have consecutive numbers, in the order of the subtasks.
  pub read_file-Numbered :
      (lines : List String) → Holds Nums (read_file s fl generator validator lines)
  unfolding read_file create_subtask Numbered
  read_file-Numbered lines = Holds->>= Nums _ _ (λ r q.
      let c = (Consecutive-read_lines lines (new_reader s fl generator validator) start).at r q in
      let n =
        Numbered-create_subtask _ (ensure_subtask r) (one_at_least r.st_count)
          (Consecutive-ensure_subtask r c) in
      let d = (create_at (ensure_subtask r).st_count (ensure_subtask r)).subtasks in
      Holds-ok Nums _ ((n.0.0, n.0.1, numbers-single d ∙ n.0.2), keys-single d ∙ n.1))
    where
      start : Consecutive (new_reader s fl generator validator)
      start = record { first = 0; count = 0; next = refl; cases = refl; order = refl }
