-- ===== src/Session/History.antt =====
-- The history of a session: which messages it holds, and which IDs they get.
use nexus_ai_gateway.Common.{
  ℕ, drop, ◌+◌, ◌-◌, ◌≤◌, ◌≡◌, suc, zero, false, Option, none, some, List, [], ◌∷◌, ◌++◌, String,
  ltb, length, length-append, replicate, arith, refl, ap, ◌∙◌, sym, map, subst, Bool-cases, inl,
  inr,
}
use mathlib.Core.List.{append-nil, append_assoc}
use nexus_ai_gateway.Common.Dict.{Dict, find, put, find-put_self}
use nexus_ai_gateway.Session.{
  MessageId, msg, Message, Session, ContextManager, trim, stamp, append_message, add_message,
  update, change_found, create_session,
}

suc_plus : (n m : ℕ) → suc (n + m) ≡ suc n + m
suc_plus n m = omega arith

short_zero : (l max : ℕ) → ltb max l ≡ false → l - max ≡ 0
short_zero l max h = ground arith

le_zero : (l n : ℕ) → l ≤ n → l - n ≡ 0
le_zero l n h = omega arith

-- The last `n` entries.
abbrev pub last {ℓ} : {A : Type ℓ} → ℕ → List A → List A
last n xs = drop (length xs - n) xs

module _ {ℓ} {A : Type ℓ} where
  drop-nil : (n : ℕ) → drop {A = A} n [] ≡ []
  drop-nil zero = refl
  drop-nil (suc n) = refl

  length-drop : (n : ℕ) (xs : List A) → length (drop n xs) ≡ length xs - n
  length-drop zero xs = omega arith
  length-drop (suc n) [] = omega arith
  length-drop (suc n) (x ∷ xs) = omega (arith, length-drop n xs)

  length-last : (n : ℕ) (xs : List A) → n ≤ length xs → length (last n xs) ≡ n
  length-last n xs h = omega (arith, length-drop (length xs - n) xs)

  drop-append : (n : ℕ) (xs ys : List A) → n ≤ length xs → drop n (xs ++ ys) ≡ drop n xs ++ ys
  drop-append zero xs ys h = refl
  drop-append (suc n) [] ys h = absurd (omega arith)
  drop-append (suc n) (x ∷ xs) ys h = drop-append n xs ys (omega arith)

  drop-drop : (m n : ℕ) (xs : List A) → drop m (drop n xs) ≡ drop (n + m) xs
  drop-drop m zero xs = ap (λ k. drop k xs) (omega arith)
  drop-drop m (suc n) [] = drop-nil m ∙ sym (drop-nil (suc n + m))
  drop-drop m (suc n) (x ∷ xs) = drop-drop m n xs ∙ ap (λ k. drop k (x ∷ xs)) (suc_plus n m)

  last_whole : (n : ℕ) (xs : List A) → length xs ≤ n → last n xs ≡ xs
  last_whole n xs h = ap (λ k. drop k xs) (le_zero (length xs) n h)

  -- Cutting to the last `n` before more entries come changes nothing in the last `n` after them.
  last-append : (n : ℕ) (xs ys : List A) → last n (last n xs ++ ys) ≡ last n (xs ++ ys)
  last-append n xs ys =
      let k = length xs - n in
      let joined = drop-append k xs ys (omega arith) in
      ap (last n) (sym joined)
      ∙ drop-drop (length (drop k (xs ++ ys)) - n) k (xs ++ ys)
      ∙ ap (λ i. drop i (xs ++ ys)) (omega (arith, length-drop k (xs ++ ys), length-append xs ys))

module _ {ℓ} {V : Type ℓ} where
  trim-last : (max : ℕ) (ms : List (Message V)) → trim max ms ≡ last max ms
  trim-last max ms = elim (Bool-cases (ltb max (length ms))) [
    | inl long ↦ simp long refl
    | inr short ↦ simp short (sym (ap (λ k. drop k ms) (short_zero (length ms) max short)))
  ]

  -- `AddMessage` for each message in turn.
  abbrev pub append_all : List (ℕ × Message V) → ContextManager V → Session V → Session V
  append_all [] cm session = session
  append_all ((now, m) ∷ ms) cm session = append_all ms cm (append_message now m cm session)

  abbrev pub added : List (ℕ × Message V) → List (List ℕ)
  added [] = []
  added ((now, m) ∷ ms) = m.content ∷ added ms

module _ {ℓ κ} {V : Type ℓ} {B : Type κ} (f : Message V → B) where
  map-drop : (n : ℕ) (ms : List (Message V)) → map f (drop n ms) ≡ drop n (map f ms)
  map-drop zero ms = refl
  map-drop (suc n) [] = refl
  map-drop (suc n) (m ∷ ms) = map-drop n ms

  length-map : (ms : List (Message V)) → length (map f ms) ≡ length ms
  length-map [] = refl
  length-map (m ∷ ms) = ap suc (length-map ms)

  map-append : (xs ys : List (Message V)) → map f (xs ++ ys) ≡ map f xs ++ map f ys
  map-append [] ys = refl
  map-append (x ∷ xs) ys = ap (λ r. f x ∷ r) (map-append xs ys)

  map-append_message :
      (now : ℕ) (m : Message V) (cm : ContextManager V) (session : Session V)
      → map f (append_message now m cm session).messages
        ≡ last cm.max_history (map f session.messages ++ f (stamp now m session) ∷ [])
  unfolding append_message
  map-append_message now m cm session =
      let all = session.messages ++ stamp now m session ∷ [] in
      ap (map f) (trim-last cm.max_history all)
      ∙ map-drop (length all - cm.max_history) all
      ∙ ap (λ k. drop (k - cm.max_history) (map f all)) (sym (length-map all))
      ∙ ap (last cm.max_history) (map-append session.messages (stamp now m session ∷ []))

module _ {ℓ} {V : Type ℓ} where
  abbrev pub content_of : Message V → List ℕ
  content_of m = m.content

  abbrev pub id_of : Message V → MessageId
  id_of m = m.id

  length-append_message :
      (now : ℕ) (m : Message V) (cm : ContextManager V) (session : Session V)
      → length (append_message now m cm session).messages
        ≡ (length session.messages + 1) - ((length session.messages + 1) - cm.max_history)
  unfolding append_message
  length-append_message now m cm session =
      let all = session.messages ++ stamp now m session ∷ [] in
      ap length (trim-last cm.max_history all)
      ∙ length-drop (length all - cm.max_history) all
      ∙ ap (λ k. k - (k - cm.max_history))
          (length-append session.messages (stamp now m session ∷ []))

  contents-append_all :
      (ms : List (ℕ × Message V)) (cm : ContextManager V) (session : Session V)
      → length session.messages ≤ cm.max_history
      → map content_of (append_all ms cm session).messages
        ≡ last cm.max_history (map content_of session.messages ++ added ms)
  contents-append_all [] cm session h = sym (
      ap (last cm.max_history) (append-nil (map content_of session.messages))
      ∙ last_whole cm.max_history (map content_of session.messages)
          (omega (arith, length-map content_of session.messages)))
  contents-append_all ((now, m) ∷ ms) cm session h =
      contents-append_all ms cm (append_message now m cm session)
        (omega (arith, length-append_message now m cm session))
      ∙ ap (λ r. last cm.max_history (r ++ added ms))
          (map-append_message content_of now m cm session)
      ∙ last-append cm.max_history (map content_of session.messages ++ m.content ∷ []) (added ms)
      ∙ ap (last cm.max_history)
          (append_assoc (map content_of session.messages) (m.content ∷ []) (added ms))

  ids-append_all :
      (ms : List (ℕ × Message V)) (cm : ContextManager V) (session : Session V)
      → length session.messages ≡ cm.max_history
      → map id_of (append_all ms cm session).messages
        ≡ last cm.max_history
            (map id_of session.messages ++ replicate (length ms) (msg (cm.max_history + 1)))
  ids-append_all [] cm session h = sym (
      ap (last cm.max_history) (append-nil (map id_of session.messages))
      ∙ last_whole cm.max_history (map id_of session.messages)
          (omega (arith, length-map id_of session.messages)))
  ids-append_all ((now, m) ∷ ms) cm session h =
      let x = msg (cm.max_history + 1) in
      ids-append_all ms cm (append_message now m cm session)
        (omega (arith, length-append_message now m cm session))
      ∙ ap (λ r. last cm.max_history (r ++ replicate (length ms) x))
          (map-append_message id_of now m cm session)
      ∙ last-append cm.max_history
          (map id_of session.messages ++ msg (length session.messages + 1) ∷ [])
          (replicate (length ms) x)
      ∙ ap (last cm.max_history) (
          append_assoc (map id_of session.messages) (msg (length session.messages + 1) ∷ [])
            (replicate (length ms) x))
      ∙ ap
          (λ l.
            last cm.max_history
              (map id_of session.messages ++ msg (l + 1) ∷ replicate (length ms) x))
          h

  -- `AddMessage` to the session for each message in turn.
  abbrev pub add_all : String → List (ℕ × Message V) → ContextManager V → ContextManager V
  add_all id [] cm = cm
  add_all id ((now, m) ∷ ms) cm = add_all id ms (add_message now id m cm).0

  -- What `f` reads of the messages of a session, oldest first.
  abbrev pub column_of {κ} : {B : Type κ} → (Message V → B) → Option (Session V) → List B
  column_of f none = []
  column_of f (some s) = map f s.messages

  abbrev pub column {κ} : {B : Type κ} → (Message V → B) → String → ContextManager V → List B
  column f id cm = column_of f (find id cm.sessions)

  append_all-sessions :
      (ms : List (ℕ × Message V)) (cm : ContextManager V) (d : Dict (Session V)) (s : Session V)
      → append_all ms (record cm { sessions = d }) s ≡ append_all ms cm s
  unfolding append_message
  append_all-sessions [] cm d s = refl
  append_all-sessions ((now, m) ∷ ms) cm d s =
      append_all-sessions ms cm d (append_message now m cm s)

  pub add_message-found :
      (now : ℕ) (id : String) (m : Message V) (cm : ContextManager V) (s : Session V)
      → find id cm.sessions ≡ some s
      → (add_message now id m cm).0
        ≡ record cm { sessions = put id (append_message now m cm s) cm.sessions }
  unfolding add_message update change_found
  add_message-found now id m cm s e = ap (λ o. (change_found id (append_message now m cm) cm o).0) e

  find-add_all :
      (id : String) (ms : List (ℕ × Message V)) (cm : ContextManager V) (s : Session V)
      → find id cm.sessions ≡ some s
      → find id (add_all id ms cm).sessions ≡ some (append_all ms cm s)
  find-add_all id [] cm s e = e
  find-add_all id ((now, m) ∷ ms) cm s e =
      let s' = append_message now m cm s in
      let d = put id s' cm.sessions in
      ap (λ c. find id (add_all id ms c).sessions) (add_message-found now id m cm s e)
      ∙ find-add_all id ms (record cm { sessions = d }) s' (find-put_self id s' cm.sessions)
      ∙ ap some (append_all-sessions ms cm d s')

  find-create_session :
      (now : ℕ) (id tenant user : String) (cm : ContextManager V)
      → (s : Session V) × (find id (create_session now id tenant user cm).sessions ≡ some s)
        × (s.messages ≡ [])
  unfolding create_session
  find-create_session now id tenant user cm = (_, find-put_self id _ cm.sessions, refl)

  -- A session that was created and got messages since holds the last of them, as many as the
  -- manager allows and in their order.
  pub created_holds_last :
      (now : ℕ) (id tenant user : String) (ms : List (ℕ × Message V)) (cm : ContextManager V)
      → column content_of id (add_all id ms (create_session now id tenant user cm))
        ≡ last cm.max_history (added ms)
  unfolding create_session
  created_holds_last now id tenant user ms cm =
      let (s, e, empty) = find-create_session now id tenant user cm in
      let cm' = create_session now id tenant user cm in
      ap (column_of content_of) (find-add_all id ms cm' s e)
      ∙ contents-append_all ms cm' s
          (subst (λ l. length l ≤ cm.max_history) (sym empty) (omega arith))
      ∙ ap (λ l. last cm.max_history (map content_of l ++ added ms)) empty

  -- Once a session is full, every further message gets the same ID, one more than the number of
  -- messages that it holds.
  pub full_repeats_ids :
      (id : String) (ms : List (ℕ × Message V)) (cm : ContextManager V) (s : Session V)
      → find id cm.sessions ≡ some s
      → length s.messages ≡ cm.max_history
      → column id_of id (add_all id ms cm)
        ≡ last cm.max_history
            (column id_of id cm ++ replicate (length ms) (msg (cm.max_history + 1)))
  full_repeats_ids id ms cm s e full =
      ap (column_of id_of) (find-add_all id ms cm s e)
      ∙ ids-append_all ms cm s full
      ∙ ap
          (λ o.
            last cm.max_history
              (column_of id_of o ++ replicate (length ms) (msg (cm.max_history + 1))))
          (sym e)
