-- ===== src/Bus/Sequencer.antt =====
-- internal/eventbus/sequencer.go: sequence numbers by partition key. A uint64 wraps at 2^64.
use nexus_ai_gateway.Common.{
  ℕ, ◌+◌, ◌-◌, ◌%◌, ◌^◌, ◌<◌, ◌≡◌, Bool, true, false, ◌&&◌, Option, none, some, List, [], ◌∷◌,
  String, if◌then◌else◌, ltb, ◌==◌, str_eq, length, arith, refl, ap, ◌∙◌, subst, Bool-cases, inl,
  inr,
}
use text.Mathlib.TextEquality.{eq_iff}
use nexus_ai_gateway.Common.Dict.{Dict, find, put, delete, find-put}

pub record EventSequencer : Type 0 where
  pub sequences : Dict ℕ

abbrev pub or_zero : Option ℕ → ℕ
or_zero none = 0
or_zero (some n) = n

abbrev pub wrap : ℕ → ℕ
wrap n = n % 2 ^ 64

unfoldable pub new_event_sequencer : EventSequencer
new_event_sequencer = record { sequences = [] }

unfoldable pub get_current : String → EventSequencer → ℕ
get_current key s = or_zero (find key s.sequences)

unfoldable pub next : String → EventSequencer → EventSequencer × ℕ
next key s =
    let n = wrap (or_zero (find key s.sequences) + 1) in
    (record s { sequences = put key n s.sequences }, n)

unfoldable pub reset : EventSequencer → EventSequencer
reset s = record s { sequences = [] }

unfoldable pub reset_key : String → EventSequencer → EventSequencer
reset_key key s = record s { sequences = delete key s.sequences }

-- The loop of `IsOrdered`.
abbrev pub all_follow : ℕ → List ℕ → Bool
all_follow expected [] = true
all_follow expected (n ∷ ns) = (n == expected) && all_follow (wrap (expected + 1)) ns

unfoldable pub is_ordered : String → List ℕ → EventSequencer → Bool
is_ordered key ns s =
    if ltb (length ns) 2
    then true
    else all_follow (wrap (get_current key s + 2 ^ 64 - wrap (length ns - 1))) ns

-- The numbers that `key` gets when `Next` is called for each of `keys` in turn, and the sequencer
-- after that.
abbrev pub draw_all : List String → EventSequencer → EventSequencer
draw_all [] s = s
draw_all (k ∷ ks) s = draw_all ks (next k s).0

abbrev pub drawn : String → List String → EventSequencer → List ℕ
drawn key [] s = []
drawn key (k ∷ ks) s =
    let rest = drawn key ks (next k s).0 in if str_eq k key then (next k s).1 ∷ rest else rest

get_current-next :
    (k key : String) (s : EventSequencer)
    → get_current key (next k s).0
      ≡ (if str_eq k key then wrap (get_current key s + 1) else get_current key s)
unfolding get_current next
get_current-next k key s =
    ground
      (arith, eq_iff k key, find-put k key (wrap (or_zero (find k s.sequences) + 1)) s.sequences)

get_current-next_same :
    (k key : String) (s : EventSequencer)
    → str_eq k key ≡ true
    → get_current key (next k s).0 ≡ wrap (get_current key s + 1)
get_current-next_same k key s same =
    get_current-next k key s
    ∙ ap (λ b. if b then wrap (get_current key s + 1) else get_current key s) same

get_current-next_other :
    (k key : String) (s : EventSequencer)
    → str_eq k key ≡ false
    → get_current key (next k s).0 ≡ get_current key s
get_current-next_other k key s other =
    get_current-next k key s
    ∙ ap (λ b. if b then wrap (get_current key s + 1) else get_current key s) other

next-get_current :
    (k key : String) (s : EventSequencer)
    → str_eq k key ≡ true
    → (next k s).1 ≡ wrap (get_current key s + 1)
unfolding get_current next
next-get_current k key s h = ground (arith, eq_iff k key)

wrap_lt : (n : ℕ) → wrap n < 2 ^ 64
wrap_lt n = omega arith

wrap_step : (c n : ℕ) → wrap (wrap (c + 1) + n) ≡ wrap (c + (n + 1))
wrap_step c n = omega arith

-- The last number of a key follows from how many it got.
get_current-draw_all :
    (key : String) (ks : List String) (s : EventSequencer)
    → get_current key s < 2 ^ 64
    → get_current key (draw_all ks s) ≡ wrap (get_current key s + length (drawn key ks s))
get_current-draw_all key [] s h = omega arith
get_current-draw_all key (k ∷ ks) s h = elim (Bool-cases (str_eq k key)) [
  | inl same ↦
      let now = get_current-next_same k key s same in
      let ih = get_current-draw_all key ks (next k s).0 (omega (arith, now)) in
      rw same (omega (arith, now, ih))
  | inr other ↦
      let now = get_current-next_other k key s other in
      let ih = get_current-draw_all key ks (next k s).0 (omega (arith, now)) in
      rw other (omega (arith, now, ih))
]

wrap_back : (c n : ℕ) → ltb n 2 ≡ false → wrap (wrap (c + n) + 2 ^ 64 - wrap (n - 1)) ≡ wrap (c + 1)
wrap_back c n h = ground arith

follow_step :
    (e : ℕ) (ns : List ℕ) → all_follow (wrap (e + 1)) ns ≡ true → all_follow e (e ∷ ns) ≡ true
follow_step e ns h = ground arith

drawn-all_follow :
    (key : String) (ks : List String) (s : EventSequencer)
    → get_current key s < 2 ^ 64
    → all_follow (wrap (get_current key s + 1)) (drawn key ks s) ≡ true
drawn-all_follow key [] s h = refl
drawn-all_follow key (k ∷ ks) s h = elim (Bool-cases (str_eq k key)) [
  | inl same ↦
      let now = get_current-next_same k key s same in
      let ih = drawn-all_follow key ks (next k s).0 (omega (arith, now)) in
      rw (same, next-get_current k key s same)
        (follow_step (wrap (get_current key s + 1)) (drawn key ks (next k s).0)
          (subst (λ n. all_follow (wrap (n + 1)) (drawn key ks (next k s).0) ≡ true) now ih))
  | inr other ↦
      let now = get_current-next_other k key s other in
      let ih = drawn-all_follow key ks (next k s).0 (omega (arith, now)) in
      rw other (subst (λ n. all_follow (wrap (n + 1)) (drawn key ks (next k s).0) ≡ true) now ih)
]

-- The numbers that a key gets from `Next`, however the calls for other keys stand between, are
-- ordered for `IsOrdered` when they have been drawn, also where they wrap around.
pub drawn-is_ordered :
    (key : String) (ks : List String) (s : EventSequencer)
    → get_current key s < 2 ^ 64
    → is_ordered key (drawn key ks s) (draw_all ks s) ≡ true
unfolding is_ordered
drawn-is_ordered key ks s h =
    let ns = drawn key ks s in
    elim (Bool-cases (ltb (length ns) 2)) [
      | inl few ↦ rw few refl
      | inr many ↦
          rw (many, get_current-draw_all key ks s h, wrap_back (get_current key s) (length ns) many)
            (drawn-all_follow key ks s h)
    ]
