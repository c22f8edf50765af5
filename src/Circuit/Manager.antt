-- ===== src/Circuit/Manager.antt =====
-- The manager of circuitbreaker.go. `GetOrCreate` returns a pointer, so a method called on it
-- changes the circuit in the map: `on_circuit` is `m.GetOrCreate(provider)` and then the method.
-- `GetOrCreate` looks the key up once more under the write lock; under one lock the two lookups
-- are one.
use mathlib.Core.Path.{ap₂}
use text.Mathlib.TextEquality.{eq_iff}
use nexus_ai_gateway.Common.{
  ℕ, ◌-◌, ◌≡◌, refl, ap, subst, false, List, [], ◌∷◌, String, Option, none, some, arith, map,
  str_eq, if◌then◌else◌, inl, inr, Bool-cases, Option-cases, ◌∙◌,
}
use nexus_ai_gateway.Common.Dict.{Dict, find, put, find-put_self, find-put_other}
use nexus_ai_gateway.Circuit.{
  Circuit, CircuitState, Config, Event, state_closed, state_half_open, state_open, new_circuit,
  step, run,
}

-- `String` of a state.
abbrev pub state_string : CircuitState → String
state_string state_closed = "CLOSED"
state_string state_half_open = "HALF_OPEN"
state_string state_open = "OPEN"

pub record Stats : Type 0 where
  pub provider : String
  pub state : String
  pub failures : ℕ
  pub successes : ℕ
  pub last_failure : ℕ
  pub last_state_change : ℕ
  pub time_in_state : ℕ

-- The clock is monotone, so `now` is not before the last change.
pub stats : ℕ → Circuit → Stats
stats now c = record {
  provider = c.provider;
  state = state_string c.state;
  failures = c.failures;
  successes = c.successes;
  last_failure = c.last_failure_time;
  last_state_change = c.last_state_change;
  time_in_state = now - c.last_state_change;
}

-- `persist_func` answers with the text of an error, or with none.
pub record Manager : Type 0 where
  pub circuits : Dict Circuit
  pub config : Config
  pub persist_func : Option (List Stats → Option String)

pub new_manager : Config → Manager
new_manager config = record { circuits = []; config = config; persist_func = none }

create : ℕ → String → Manager → Manager × Circuit
create now provider m =
    let circuit = new_circuit now provider m.config in
    (record m { circuits = put provider circuit m.circuits }, circuit)

pub get_or_create : ℕ → String → Manager → Manager × Circuit
unfolding create
get_or_create now provider m = elim (find provider m.circuits) [
  | some circuit ↦ (m, circuit)
  | none ↦ create now provider m
]

pub get : String → Manager → Option Circuit
get provider m = find provider m.circuits

pub list : Manager → List Circuit
list m = map (λ e. e.1) m.circuits

pub set_persistence_func : (List Stats → Option String) → Manager → Manager
set_persistence_func f m = record m { persist_func = some f }

pub persist_stats : ℕ → Manager → Option String
unfolding list
persist_stats now m = elim m.persist_func [ none ↦ none | some f ↦ f (map (stats now) (list m)) ]

pub on_circuit : ℕ → String → Event → Manager → Manager
on_circuit now provider e m =
    let (m', circuit) = get_or_create now provider m in
    record m' { circuits = put provider (step now e circuit) m'.circuits }

pub run_all : List (ℕ × String × Event) → Manager → Manager
run_all [] m = m
run_all ((now, p, e) ∷ es) m = run_all es (on_circuit now p e m)

-- The calls for one provider.
pub calls_of : String → List (ℕ × String × Event) → List (ℕ × Event)
calls_of p [] = []
calls_of p ((now, q, e) ∷ es) =
    let rest = calls_of p es in if str_eq q p then (now, e) ∷ rest else rest

-- A circuit that stands alone: it is created at its first call.
abbrev pub alone : String → Config → Option Circuit → List (ℕ × Event) → Option Circuit
alone p k (some c) es = some (run es c)
alone p k none [] = none
alone p k none ((now, e) ∷ es) = some (run ((now, e) ∷ es) (new_circuit now p k))

config-on_circuit :
    (now : ℕ) (q : String) (e : Event) (m : Manager) → (on_circuit now q e m).config ≡ m.config
unfolding on_circuit get_or_create
config-on_circuit now q e m = ground arith

get-on_circuit_other :
    (now : ℕ) (q p : String) (e : Event) (m : Manager)
    → str_eq q p ≡ false
    → get p (on_circuit now q e m) ≡ get p m
unfolding on_circuit get_or_create get
get-on_circuit_other now q p e m h = elim (Option-cases (find q m.circuits)) [
  | inl new ↦ rw (new, get_or_create) (find-put_other q p _ _ h ∙ find-put_other q p _ _ h)
  | inr (c, old) ↦ rw (old, get_or_create) (find-put_other q p _ _ h)
]

alone-on_circuit :
    (now : ℕ) (p : String) (e : Event) (m : Manager) (es : List (ℕ × Event))
    → alone p m.config (get p (on_circuit now p e m)) es
      ≡ alone p m.config (get p m) ((now, e) ∷ es)
unfolding on_circuit get_or_create get run
alone-on_circuit now p e m es = elim (Option-cases (find p m.circuits)) [
  | inl new ↦
      rw (new, get_or_create)
        (rw (find-put_self p _ (put p (new_circuit now p m.config) m.circuits)))
  | inr (c, old) ↦ rw (old, get_or_create) (rw (find-put_self p (step now e c) m.circuits))
]

alone_none : (p : String) (k : Config) (c : Option Circuit) → c ≡ alone p k c []
unfolding run
alone_none p k none = refl
alone_none p k (some c) = refl

get-run_all_from :
    (p : String) (es : List (ℕ × String × Event)) (m : Manager)
    → get p (run_all es m) ≡ alone p m.config (get p m) (calls_of p es)
unfolding run_all calls_of run
get-run_all_from p [] m = alone_none p m.config (get p m)
get-run_all_from p ((now, q, e) ∷ es) m = elim (Bool-cases (str_eq q p)) [
  | inl same ↦ rw same (
      subst
        (λ r.
          get r (run_all es (on_circuit now q e m))
          ≡ alone r m.config (get r m) ((now, e) ∷ calls_of r es))
        ((eq_iff q p).0 same)
        (get-run_all_from q es (on_circuit now q e m)
          ∙ ap (λ k. alone q k (get q (on_circuit now q e m)) (calls_of q es))
              (config-on_circuit now q e m)
          ∙ alone-on_circuit now q e m (calls_of q es)))
  | inr other ↦ rw other (
      get-run_all_from p es (on_circuit now q e m)
      ∙ ap₂ (λ k c. alone p k c (calls_of p es)) (config-on_circuit now q e m)
          (get-on_circuit_other now q p e m other))
]

-- A manager that starts empty keeps for each provider the circuit that the calls for that
-- provider alone would have made of a new one, whatever the calls for the others, and no circuit
-- for a provider without a call.
pub get-run_all :
    (p : String) (k : Config) (es : List (ℕ × String × Event))
    → get p (run_all es (new_manager k)) ≡ alone p k none (calls_of p es)
unfolding new_manager get find
get-run_all p k es = get-run_all_from p es (new_manager k)
