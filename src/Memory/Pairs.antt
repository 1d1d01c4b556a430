-- ===== src/Memory/Pairs.antt =====
-- What the window of a session holds.
use production_rag_system.Prelude.{
  ℕ, zero, suc, ◌+◌, ◌-◌, ◌*◌, ◌≤◌, ◌<◌, ◌≡◌, refl, sym, ap, ◌∙◌, subst, inl, inr, true, List, [],
  ◌∷◌, ◌++◌, map, none, arith, String, length-drop, take_of_length-le, length, length-append, take,
  drop, last_n, reverse, All, All-append, Bool-cases, leb, sort_desc, insert_desc,
}
use production_rag_system.Core.Settings.{Settings}
use production_rag_system.Memory.Window.{
  Message, ChatSession, is_user, is_assistant, pairs_from, pairs, flatten, last_whole_pairs,
  window_pairs, summary_tokens, sum_tokens, assemble,
}
use production_rag_system.Memory.Service.{Db, of_session, newest, load_window}

abbrev pub IsPair : Message × Message → Type 0
IsPair p = (is_user p.0 ≡ true) × (is_assistant p.1 ≡ true)

pub pairs_from-flatten :
    (ps : List (Message × Message)) (tail : List Message)
    → All IsPair ps
    → pairs_from none (flatten ps ++ tail) ≡ ps ++ pairs_from none tail
pairs_from-flatten [] tail h = refl
pairs_from-flatten ((a, b) ∷ ps) tail h =
    rw (h.0.0, h.0.1) (ap (◌∷◌ (a, b)) (pairs_from-flatten ps tail h.1))

pub length-flatten : (ps : List (Message × Message)) → length (flatten ps) ≡ length ps * 2
length-flatten [] = refl
length-flatten ((a, b) ∷ ps) = omega (arith, length-flatten ps)

drop-flatten :
    (j : ℕ) (ps : List (Message × Message)) (tail : List Message)
    → j ≤ length ps
    → drop (j * 2) (flatten ps ++ tail) ≡ flatten (drop j ps) ++ tail
drop-flatten zero ps tail h = refl
drop-flatten (suc j) [] tail h = absurd (omega arith)
drop-flatten (suc j) ((a, b) ∷ ps) tail h =
    let e : suc j * 2 ≡ suc (suc (j * 2)) = omega arith in
    ap (λ k. drop k (a ∷ b ∷ (flatten ps ++ tail))) e ∙ drop-flatten j ps tail (omega arith)

drop-nil {ℓ} : {A : Type ℓ} (a : ℕ) → drop {A = A} a [] ≡ []
drop-nil zero = refl
drop-nil (suc a) = refl

drop-drop {ℓ} : {A : Type ℓ} (a b : ℕ) (xs : List A) → drop a (drop b xs) ≡ drop (b + a) xs
drop-drop a zero xs = ap (λ k. drop k xs) (omega arith)
drop-drop a (suc b) [] =
    let e : suc b + a ≡ suc (b + a) = omega arith in drop-nil a ∙ ap (λ k. drop k []) (sym e)
drop-drop a (suc b) (x ∷ xs) =
    let e : suc (b + a) ≡ suc b + a = omega arith in drop-drop a b xs ∙ ap (λ k. drop k (x ∷ xs)) e

All-drop-pairs : (n : ℕ) (ps : List (Message × Message)) → All IsPair ps → All IsPair (drop n ps)
All-drop-pairs zero ps h = h
All-drop-pairs (suc n) [] h = tt
All-drop-pairs (suc n) (p ∷ ps) h = All-drop-pairs n ps h.1

-- Created in the order of the list, each later than the one before.
abbrev pub IsChronological : List Message → Type 0
IsChronological [] = Unit
IsChronological (m ∷ ms) = All (λ n. m.created_at < n.created_at) ms × IsChronological ms

insert_newest-last :
    (m : Message) (ms : List Message)
    → All (λ n. m.created_at < n.created_at) ms
    → insert_desc newest m ms ≡ ms ++ m ∷ []
unfolding insert_desc
insert_newest-last m [] h = refl
insert_newest-last m (n ∷ ms) h = ground (arith, h.0, insert_newest-last m ms h.1)

All-reverse {ℓ κ} : {A : Type ℓ} (P : A → Type κ) (xs : List A) → All P xs → All P (reverse xs)
All-reverse P [] h = tt
All-reverse P (x ∷ xs) h = All-append P (reverse xs) (x ∷ []) (All-reverse P xs h.1) (h.0, tt)

sort_desc-newest : (ms : List Message) → IsChronological ms → sort_desc newest ms ≡ reverse ms
unfolding sort_desc
sort_desc-newest [] h = refl
sort_desc-newest (m ∷ ms) h =
    ap (insert_desc newest m) (sort_desc-newest ms h.1)
    ∙ insert_newest-last m (reverse ms) (All-reverse (λ n. m.created_at < n.created_at) ms h.0)

append-nil {ℓ} : {A : Type ℓ} (xs : List A) → xs ++ [] ≡ xs
append-nil [] = refl
append-nil (x ∷ xs) = ap (◌∷◌ x) (append-nil xs)

append_assoc {ℓ} : {A : Type ℓ} (xs ys zs : List A) → (xs ++ ys) ++ zs ≡ xs ++ (ys ++ zs)
append_assoc [] ys zs = refl
append_assoc (x ∷ xs) ys zs = ap (◌∷◌ x) (append_assoc xs ys zs)

-- The newest `k`, put in order again, are the last `k`.
reverse-append {ℓ} : {A : Type ℓ} (xs ys : List A) → reverse (xs ++ ys) ≡ reverse ys ++ reverse xs
reverse-append [] ys = sym (append-nil (reverse ys))
reverse-append (x ∷ xs) ys =
    ap (λ l. l ++ x ∷ []) (reverse-append xs ys) ∙ append_assoc (reverse ys) (reverse xs) (x ∷ [])

reverse-reverse {ℓ} : {A : Type ℓ} (xs : List A) → reverse (reverse xs) ≡ xs
reverse-reverse [] = refl
reverse-reverse (x ∷ xs) = reverse-append (reverse xs) (x ∷ []) ∙ ap (◌∷◌ x) (reverse-reverse xs)

take-append {ℓ} :
    {A : Type ℓ} (k : ℕ) (xs ys : List A) → k ≤ length xs → take k (xs ++ ys) ≡ take k xs
take-append zero xs ys h = refl
take-append (suc k) [] ys h = absurd (omega arith)
take-append (suc k) (x ∷ xs) ys h = ap (◌∷◌ x) (take-append k xs ys (omega arith))

length-reverse {ℓ} : {A : Type ℓ} (xs : List A) → length (reverse xs) ≡ length xs
length-reverse [] = refl
length-reverse (x ∷ xs) = omega (arith, length-append (reverse xs) (x ∷ []), length-reverse xs)

reverse-take {ℓ} : {A : Type ℓ} (k : ℕ) (xs : List A) → reverse (take k (reverse xs)) ≡ last_n k xs
reverse-take zero [] = refl
reverse-take (suc k) [] = sym (drop-nil (0 - suc k))
reverse-take k (x ∷ xs) = elim (Bool-cases (leb k (length xs))) [
  | inl inside ↦
      let e : length (x ∷ xs) - k ≡ suc (length xs - k) = ground arith in
      ap reverse (take-append k (reverse xs) (x ∷ []) (ground (arith, length-reverse xs)))
      ∙ (reverse-take k xs ∙ ap (λ j. drop j (x ∷ xs)) (sym e))
  | inr whole ↦
      let e : length (x ∷ xs) - k ≡ 0 = ground arith in
      ap reverse (take_of_length-le k (reverse (x ∷ xs)) (ground (arith, length-reverse (x ∷ xs))))
      ∙ (reverse-reverse (x ∷ xs) ∙ ap (λ j. drop j (x ∷ xs)) (sym e))
]

drop-all {ℓ} : {A : Type ℓ} (n : ℕ) (xs : List A) → length xs ≤ n → drop n xs ≡ []
drop-all zero [] h = refl
drop-all zero (x ∷ xs) h = absurd (omega arith)
drop-all (suc n) [] h = refl
drop-all (suc n) (x ∷ xs) h = drop-all n xs (omega arith)

-- The newest whole pairs.
last_pairs :
    (n w : ℕ) (ps : List (Message × Message)) (question : Message)
    → n ≤ w
    → All IsPair ps
    → last_whole_pairs (last_n (w * 2 + 1) (flatten ps ++ question ∷ [])) n ≡ flatten (last_n n ps)
unfolding last_whole_pairs pairs
last_pairs n w ps question fits h =
    let skipped = length ps - w in
    let cut : last_n (w * 2 + 1) (flatten ps ++ question ∷ [])
        ≡ flatten (drop skipped ps) ++ question ∷ [] =
      ap (λ k. drop k (flatten ps ++ question ∷ []))
        (omega (arith, length-append (flatten ps) (question ∷ []), length-flatten ps))
      ∙ drop-flatten skipped ps (question ∷ []) (omega arith) in
    let found : pairs (flatten (drop skipped ps) ++ question ∷ []) ≡ drop skipped ps =
      pairs_from-flatten (drop skipped ps) (question ∷ []) (All-drop-pairs skipped ps h)
      ∙ append-nil (drop skipped ps) in
    let tail : last_n n (drop skipped ps) ≡ last_n n ps =
      drop-drop (length (drop skipped ps) - n) skipped ps
      ∙ ap (λ k. drop k ps) (omega (arith, length-drop skipped ps)) in
    elim (Bool-cases (leb 1 n)) [
      | inl some_n ↦ rw (cut, found, some_n) (ap flatten tail)
      | inr no_n ↦ rw no_n (ap flatten (sym (drop-all (length ps - n) ps (ground arith))))
    ]

module _ {F : Type 0} (settings : Settings F) where
  window_pairs-le :
      (session : ChatSession)
      → settings.memory_keep_last_pairs ≤ settings.memory_window_pairs
      → window_pairs settings session ≤ settings.memory_window_pairs
  window_pairs-le session narrower = ground arith

  pub load_window-last :
      (session_id : String) (db : Db)
      → IsChronological (of_session session_id db.messages)
      → load_window settings session_id db
        ≡ last_n (settings.memory_window_pairs * 2 + 1) (of_session session_id db.messages)
  unfolding load_window
  load_window-last session_id db h =
      let k = settings.memory_window_pairs * 2 + 1 in
      let ms = of_session session_id db.messages in
      ap (λ l. reverse (take k l)) (sort_desc-newest ms h) ∙ reverse-take k ms

  -- In a session whose messages are whole pairs and then the current question, each later than the
  -- one before, the prompt holds exactly the newest MEMORY_WINDOW_PAIRS pairs, or
  -- MEMORY_KEEP_LAST_PAIRS over the budget, verbatim and in order, and counts just their tokens and
  -- the summary's. MEMORY_KEEP_LAST_PAIRS is at most MEMORY_WINDOW_PAIRS.
  pub assemble-load_window :
      (session : ChatSession) (db : Db) (ps : List (Message × Message)) (question : Message)
      → settings.memory_keep_last_pairs ≤ settings.memory_window_pairs
      → of_session session.id db.messages ≡ flatten ps ++ question ∷ []
      → IsChronological (flatten ps ++ question ∷ [])
      → All IsPair ps
      → ((assemble settings session (load_window settings session.id db)).pairs
          ≡ map
              (λ m. record { role = m.role; content = m.content })
              (flatten (last_n (window_pairs settings session) ps)))
        × ((assemble settings session (load_window settings session.id db)).effective_tokens
            ≡ summary_tokens settings session
              + sum_tokens (flatten (last_n (window_pairs settings session) ps)))
  unfolding assemble
  assemble-load_window session db ps question narrower transcript times whole =
      let n = window_pairs settings session in
      let loaded : load_window settings session.id db
          ≡ last_n (settings.memory_window_pairs * 2 + 1) (flatten ps ++ question ∷ []) =
        load_window-last session.id db (subst IsChronological (sym transcript) times)
        ∙ ap (last_n (settings.memory_window_pairs * 2 + 1)) transcript in
      let kept : last_whole_pairs (load_window settings session.id db) n ≡ flatten (last_n n ps) =
        ap (λ l. last_whole_pairs l n) loaded
        ∙ last_pairs n settings.memory_window_pairs ps question (window_pairs-le session narrower)
            whole in
      (
        ap (map (λ m. record { role = m.role; content = m.content })) kept,
        ap (λ l. summary_tokens settings session + sum_tokens l) kept,
      )
