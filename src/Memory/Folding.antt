-- ===== src/Memory/Folding.antt =====
-- Which messages load_memory of backend/app/memory/service.py hands over to be folded into the
-- summary.
use production_rag_system.Prelude.{
  ℕ, zero, suc, ◌+◌, ◌-◌, ◌*◌, ◌≤◌, ◌<◌, ◌≡◌, refl, sym, ap, ap₂, ◌∙◌, inl, inr, Bool, true, false,
  ◌&&◌, List, [], ◌∷◌, ◌++◌, none, some, arith, String, length-take, take-append-drop, length, take,
  last_n, filterb, find, str_eq, All, All-map, Bool-cases, leb, sort_desc, insert_desc,
  if◌then◌else◌,
}
use production_rag_system.Core.Contracts.{Role}
use production_rag_system.Core.Settings.{Settings}
use production_rag_system.Memory.Window.{
  Message, ChatSession, is_user, is_assistant, flatten, window_pairs,
}
use production_rag_system.Memory.Service.{
  Db, of_session, older, completed_pairs, summarized_pairs, boundary, at_or_before, after,
  unsummarized, load_pending, threshold, pending_pairs, some_if_any, load_memory,
}
use production_rag_system.Memory.Pairs.{IsPair, IsChronological}

filterb-append {ℓ} :
    {A : Type ℓ} (p : A → Bool) (xs ys : List A)
    → filterb p (xs ++ ys) ≡ filterb p xs ++ filterb p ys
filterb-append p [] ys = refl
filterb-append p (x ∷ xs) ys = elim (Bool-cases (p x)) [
  | inl holds ↦ rw holds (ap (◌∷◌ x) (filterb-append p xs ys))
  | inr fails ↦ rw fails (filterb-append p xs ys)
]

filterb-kept {ℓ} :
    {A : Type ℓ} (p : A → Bool) (xs : List A) → All (λ x. p x ≡ true) xs → filterb p xs ≡ xs
filterb-kept p [] h = refl
filterb-kept p (x ∷ xs) h = rw h.0 (ap (◌∷◌ x) (filterb-kept p xs h.1))

filterb-none {ℓ} :
    {A : Type ℓ} (p : A → Bool) (xs : List A) → All (λ x. p x ≡ false) xs → filterb p xs ≡ []
filterb-none p [] h = refl
filterb-none p (x ∷ xs) h = rw h.0 (filterb-none p xs h.1)

-- Messages in order are sorted already.
sort_desc-older : (ms : List Message) → IsChronological ms → sort_desc older ms ≡ ms
unfolding sort_desc insert_desc
sort_desc-older [] h = refl
sort_desc-older (m ∷ []) h = refl
sort_desc-older (m ∷ n ∷ ms) h =
    ap (insert_desc older m) (sort_desc-older (n ∷ ms) h.1) ∙ ground (arith, h.0.0)

IsChronological-append : (us vs : List Message) → IsChronological (us ++ vs) → IsChronological vs
IsChronological-append [] vs h = h
IsChronological-append (u ∷ us) vs h = IsChronological-append us vs h.1

All-prefix {κ} : (P : Message → Type κ) (us vs : List Message) → All P (us ++ vs) → All P vs
All-prefix P [] vs h = h
All-prefix P (u ∷ us) vs h = All-prefix P us vs h.1

-- The pairs up to one, whose assistant message is the boundary.
abbrev pub up_to : List (Message × Message) → Message → Message → List (Message × Message)
up_to xs a b = xs ++ (a, b) ∷ []

boundary-All :
    (P : Message → Type 0) (xs : List (Message × Message)) (a b : Message) (vs : List Message)
    → All P (flatten (up_to xs a b) ++ vs)
    → P b
boundary-All P [] a b vs h = h.1.0
boundary-All P ((x, y) ∷ xs) a b vs h = boundary-All P xs a b vs h.1.1

split_at_boundary :
    (xs : List (Message × Message)) (a b : Message) (vs : List Message)
    → IsChronological (flatten (up_to xs a b) ++ vs)
    → All (λ m. m.created_at ≤ b.created_at) (flatten (up_to xs a b))
      × All (λ m. b.created_at < m.created_at) vs
split_at_boundary [] a b vs h = ((omega (arith, h.0.0), (omega arith, tt)), h.1.0)
split_at_boundary ((x, y) ∷ xs) a b vs h =
    let (low, high) = split_at_boundary xs a b vs h.1.1 in
    let x_low = boundary-All (λ n. x.created_at < n.created_at) xs a b vs h.0.1 in
    let y_low = boundary-All (λ n. y.created_at < n.created_at) xs a b vs h.1.0 in
    ((omega (arith, x_low), (omega (arith, y_low), low)), high)

pairs-All :
    (P : Message → Type 0) (ps : List (Message × Message))
    → All P (flatten ps)
    → All (λ q. P q.1) ps
pairs-All P [] h = tt
pairs-All P ((a, b) ∷ ps) h = (h.1.0, pairs-All P ps h.1.1)

take-flatten :
    (j : ℕ) (ps : List (Message × Message)) (tail : List Message)
    → j ≤ length ps
    → take (j * 2) (flatten ps ++ tail) ≡ flatten (take j ps)
take-flatten zero ps tail h = refl
take-flatten (suc j) [] tail h = absurd (omega arith)
take-flatten (suc j) ((a, b) ∷ ps) tail h =
    let e : suc j * 2 ≡ suc (suc (j * 2)) = omega arith in
    ap (λ k. take k (a ∷ b ∷ (flatten ps ++ tail))) e
    ∙ ap (λ l. a ∷ b ∷ l) (take-flatten j ps tail (omega arith))

role-apart :
    (r : Role)
    → (elim r [ Role.user ↦ true | _ ↦ false ]) ≡ true
    → (elim r [ Role.assistant ↦ true | _ ↦ false ]) ≡ false
role-apart Role.user h = refl
role-apart Role.assistant h = absurd (ground arith)
role-apart Role.system h = refl

user-not-assistant : (m : Message) → is_user m ≡ true → is_assistant m ≡ false
user-not-assistant m h = role-apart m.role h

-- Each pair has one assistant message.
count-assistants :
    (p : Message → Bool) (ps : List (Message × Message)) (tail : List Message)
    → All IsPair ps
    → ((m : Message) → is_assistant m ≡ false → p m ≡ false)
    → All (λ q. p q.1 ≡ true) ps
    → length (filterb p (flatten ps ++ tail)) ≡ length ps + length (filterb p tail)
count-assistants p [] tail h only each = omega arith
count-assistants p ((a, b) ∷ ps) tail h only each =
    rw (only a (user-not-assistant a h.0.0), each.0)
      (omega (arith, count-assistants p ps tail h.1 only each.1))

module _ {F : Type 0} (settings : Settings F) (session : ChatSession) (db : Db)
    (xs ys : List (Message × Message)) (a b question : Message) (upto_id : String) where
  abbrev rest : List Message
  rest = flatten ys ++ question ∷ []

  -- The transcript, and where the summary ends.
  pub record IsFoldedUpTo : Type 0 where
    pub transcript : of_session session.id db.messages ≡ flatten (up_to xs a b) ++ rest
    pub chronological : IsChronological (flatten (up_to xs a b) ++ rest)
    pub folded_pairs : All IsPair (up_to xs a b)
    pub other_pairs : All IsPair ys
    pub asked : is_user question ≡ true
    pub pointer : session.summarized_upto_message_id ≡ some upto_id
    pub found : find (λ m. str_eq m.id upto_id) db.messages ≡ some b

  module _ (w : IsFoldedUpTo) where
    at_boundary : boundary db upto_id ≡ some b.created_at
    at_boundary = rw (w.found, boundary) refl

    unsummarized-rest : unsummarized session db ≡ rest
    unsummarized-rest =
        let (low, high) = split_at_boundary xs a b rest w.chronological in
        let p = after (some b.created_at) in
        rw (w.pointer, at_boundary, w.transcript, unsummarized)
          (filterb-append p (flatten (up_to xs a b)) rest
            ∙ ap₂ (λ l r. l ++ r)
                (filterb-none p (flatten (up_to xs a b)) (All-map (λ m h. ground arith) _ low))
                (filterb-kept p rest (All-map (λ m h. ground arith) _ high)))

    no_answer : is_assistant question ≡ false
    no_answer = user-not-assistant question w.asked

    summarized-up_to : summarized_pairs session db ≡ length (up_to xs a b)
    unfolding summarized_pairs
    summarized-up_to =
        let (low, high) = split_at_boundary xs a b rest w.chronological in
        let p : Message → Bool = λ m. is_assistant m && at_or_before (some b.created_at) m in
        let each = pairs-All (λ m. m.created_at ≤ b.created_at) (up_to xs a b) low in
        let tail : filterb p rest ≡ [] =
          filterb-none p rest (All-map (λ m h. ground arith) _ high) in
        rw (w.pointer, at_boundary, w.transcript, summarized_pairs)
          (count-assistants p (up_to xs a b) rest w.folded_pairs (λ m h. rw h refl)
              (answered-at (up_to xs a b) w.folded_pairs each)
            ∙ (ap (λ l. length (up_to xs a b) + length l) tail ∙ omega arith))
      where
        answered-at :
            (ps : List (Message × Message))
            → All IsPair ps
            → All (λ q. q.1.created_at ≤ b.created_at) ps
            → All (λ q. (is_assistant q.1 && at_or_before (some b.created_at) q.1) ≡ true) ps
        answered-at [] h g = tt
        answered-at (q ∷ ps) h g = (ground (arith, h.0.1, g.0), answered-at ps h.1 g.1)

    completed-all : completed_pairs session.id db ≡ length (up_to xs a b) + length ys
    unfolding completed_pairs
    completed-all =
        rw (w.transcript, completed_pairs)
          (count-assistants is_assistant (up_to xs a b) rest w.folded_pairs (λ m h. h)
              (All-map (λ q h. h.1) _ w.folded_pairs)
            ∙ (ap (λ n. length (up_to xs a b) + n)
                (count-assistants is_assistant ys (question ∷ []) w.other_pairs (λ m h. h)
                    (All-map (λ q h. h.1) _ w.other_pairs)
                  ∙ rw no_answer (omega arith))))

    -- The pairs that slid out of the window since the summary.
    abbrev slid_out : ℕ
    slid_out = length ys - window_pairs settings session

    pending-slid_out : pending_pairs settings session db ≡ slid_out
    pending-slid_out = omega (arith, completed-all, summarized-up_to)

    load_pending-slid_out : load_pending session slid_out db ≡ flatten (take slid_out ys)
    unfolding load_pending
    load_pending-slid_out =
        ap (λ l. take (slid_out * 2) (sort_desc older l)) unsummarized-rest
        ∙ (ap (take (slid_out * 2)) (
              sort_desc-older rest
                (IsChronological-append (flatten (up_to xs a b)) rest w.chronological))
            ∙ take-flatten slid_out ys (question ∷ []) (omega arith))

-- In a session of whole pairs and the current question, each message later than the one before,
-- whose summary ends with one of the pairs: the pending pairs, those between the summary and the
-- window, make up with the window all the pairs since the summary, and load_memory hands over for
-- folding just the pending pairs, in order, if there are as many as the threshold (one, over the
-- budget), and nothing otherwise.
pub load_memory-no_gap :
    {F : Type 0} (settings : Settings F) (session : ChatSession) (db : Db)
    (xs ys : List (Message × Message)) (a b question : Message) (upto_id : String)
    → IsFoldedUpTo settings session db xs ys a b question upto_id
    → (pending : List (Message × Message)) × (pending ++ last_n (window_pairs settings session) ys
        ≡ ys)
      × ((load_memory settings session db).1 ≡ (
          if leb (threshold settings session) (length pending)
          then some_if_any (flatten pending)
          else none))
unfolding load_memory
load_memory-no_gap settings session db xs ys a b question upto_id w =
    let n = length ys - window_pairs settings session in
    let count = pending-slid_out settings session db xs ys a b question upto_id w in
    let size : length (take n ys) ≡ n = omega (arith, length-take n ys) in
    (
      take n ys,
      take-append-drop n ys,
      ap
            (λ k.
              if leb (threshold settings session) k
              then some_if_any (load_pending session k db)
              else none)
            count
          ∙ ap₂ (λ k l. if leb (threshold settings session) k then some_if_any l else none)
              (sym size) (load_pending-slid_out settings session db xs ys a b question upto_id w),
    )
