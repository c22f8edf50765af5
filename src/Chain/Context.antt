-- ===== src/Chain/Context.antt =====
-- internal/orchestration/orchestrator.go, `ExecutionContext`: data for the steps of a chain, some of
-- whose keys are immutable. A value is of any type.
use nexus_ai_gateway.Common.{
  ◌≡◌, Bool, true, false, ◌||◌, Option, List, [], ◌∷◌, ◌++◌, String, arith, if◌then◌else◌, str_eq,
  refl, ◌∙◌,
}
use text.Mathlib.TextEquality.{eq_iff}
use nexus_ai_gateway.Common.Dict.{Dict, find, put, find-put}

pub record ExecutionContext {ℓ} (V : Type ℓ) : Type ℓ where
  pub entries : Dict V
  pub muvis : List String

-- The loops that look for a key.
abbrev pub lists : String → List String → Bool
lists key [] = false
lists key (k ∷ ks) = str_eq k key || lists key ks

-- A write, or the marking of a key.
pub data Op {ℓ} (V : Type ℓ) : Type ℓ where
  sets : String → V → Op V
  marks : String → Op V

lists-append :
    (key : String) (xs ys : List String) → lists key xs ≡ true → lists key (xs ++ ys) ≡ true
lists-append key [] ys h = ground arith
lists-append key (x ∷ xs) ys h = ground (arith, lists-append key xs ys)

lists-last : (key : String) (xs : List String) → lists key (xs ++ key ∷ []) ≡ true
lists-last key [] = ground (arith, eq_iff key key)
lists-last key (x ∷ xs) = ground (arith, lists-last key xs)

module _ {ℓ} {V : Type ℓ} where
  unfoldable pub new_execution_context : ExecutionContext V
  new_execution_context = record { entries = []; muvis = [] }

  unfoldable pub set : String → V → ExecutionContext V → ExecutionContext V
  set key value ec =
      if lists key ec.muvis then ec else record ec { entries = put key value ec.entries }

  unfoldable pub get : String → ExecutionContext V → Option V
  get key ec = find key ec.entries

  unfoldable pub mark_immutable : String → ExecutionContext V → ExecutionContext V
  mark_immutable key ec = record ec { muvis = ec.muvis ++ key ∷ [] }

  unfoldable pub apply : Op V → ExecutionContext V → ExecutionContext V
  apply (sets k v) ec = set k v ec
  apply (marks k) ec = mark_immutable k ec

  unfoldable pub apply_all : List (Op V) → ExecutionContext V → ExecutionContext V
  apply_all [] ec = ec
  apply_all (op ∷ ops) ec = apply_all ops (apply op ec)

  apply_keeps :
      (key : String) (op : Op V) (ec : ExecutionContext V)
      → lists key ec.muvis ≡ true
      → (lists key (apply op ec).muvis ≡ true) × (get key (apply op ec) ≡ get key ec)
  unfolding apply set get mark_immutable
  apply_keeps key (sets k v) ec h = ground (arith, eq_iff k key, find-put k key v ec.entries)
  apply_keeps key (marks k) ec h = (lists-append key ec.muvis (k ∷ []) h, ground arith)

  run_keeps :
      (key : String) (ops : List (Op V)) (ec : ExecutionContext V)
      → lists key ec.muvis ≡ true
      → get key (apply_all ops ec) ≡ get key ec
  unfolding apply_all
  run_keeps key [] ec h = refl
  run_keeps key (op ∷ ops) ec h =
      let (still, same) = apply_keeps key op ec h in run_keeps key ops (apply op ec) still ∙ same

  marked : (key : String) (ec : ExecutionContext V) → lists key (mark_immutable key ec).muvis ≡ true
  unfolding mark_immutable
  marked key ec = lists-last key ec.muvis

  get-mark_immutable :
      (key k : String) (ec : ExecutionContext V) → get k (mark_immutable key ec) ≡ get k ec
  unfolding get mark_immutable
  get-mark_immutable key k ec = refl

  -- What a key holds when it is marked immutable it holds after any writes and further marks.
  pub get-apply_all :
      (key : String) (ops : List (Op V)) (ec : ExecutionContext V)
      → get key (apply_all ops (mark_immutable key ec)) ≡ get key ec
  get-apply_all key ops ec =
      run_keeps key ops (mark_immutable key ec) (marked key ec) ∙ get-mark_immutable key key ec
