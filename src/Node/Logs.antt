-- ===== src/Node/Logs.antt =====
-- How the functions of node/src extend the log of their calls.
use Prim.Native.String.{String}
use contradots_techconnect_c.Base.{
  ℕ, ◌+◌, ◌≡◌, refl, subst, ap, ◌∙◌, Bool, true, false, Option, none, some, List, [], ◌∷◌, arith,
}
use contradots_techconnect_c.Node.Data.{
  ParaId, Error, Exit, returned, failed, stopped, Step, read_json_file, parsed_args, created_runner,
  created_configuration, started_telemetry_worker, opened_database, built_import_queue,
  built_relay_chain_interface, started_offchain_workers, spawned_tasks, asked_overseer,
  built_network, started_relay_chain_tasks, spawned_aura, spawned, warned_about_hardware,
  gathered_hwbench, ran, ⊤, Io, Answer, continue, ◌>>=◌, pure, perform, record_step, expect, ok_or,
  map_err, when_true,
}

-- The identifier of the parachain, in the calls that make the node a part of it.
abbrev pub para_id_of : Step → Option ParaId
para_id_of (built_network id) = some id
para_id_of (started_relay_chain_tasks id) = some id
para_id_of (spawned_aura id) = some id
para_id_of (read_json_file id) = none
para_id_of parsed_args = none
para_id_of created_runner = none
para_id_of created_configuration = none
para_id_of started_telemetry_worker = none
para_id_of opened_database = none
para_id_of built_import_queue = none
para_id_of built_relay_chain_interface = none
para_id_of started_offchain_workers = none
para_id_of spawned_tasks = none
para_id_of asked_overseer = none
para_id_of (spawned name) = none
para_id_of warned_about_hardware = none
para_id_of gathered_hwbench = none
para_id_of (ran name) = none

abbrev pub IsOf : ParaId → Option ParaId → Type 0
IsOf id none = Unit
IsOf id (some id') = id' ≡ id

-- Every call concerns this parachain, or none.
abbrev pub AllOf : ParaId → List Step → Type 0
AllOf id [] = Unit
AllOf id (step ∷ log) = IsOf id (para_id_of step) × AllOf id log

-- No call concerns a parachain.
abbrev pub NoParachain : List Step → Type 0
NoParachain [] = Unit
NoParachain (step ∷ log) = (para_id_of step ≡ none) × NoParachain log

abbrev pub one_if : Bool → ℕ
one_if true = 1
one_if false = 0

abbrev pub is_aura : Step → Bool
is_aura (spawned_aura id) = true
is_aura (built_network id) = false
is_aura (started_relay_chain_tasks id) = false
is_aura (read_json_file id) = false
is_aura parsed_args = false
is_aura created_runner = false
is_aura created_configuration = false
is_aura started_telemetry_worker = false
is_aura opened_database = false
is_aura built_import_queue = false
is_aura built_relay_chain_interface = false
is_aura started_offchain_workers = false
is_aura spawned_tasks = false
is_aura asked_overseer = false
is_aura (spawned name) = false
is_aura warned_about_hardware = false
is_aura gathered_hwbench = false
is_aura (ran name) = false

-- How often block production was started.
abbrev pub auras : List Step → ℕ
auras [] = 0
auras (step ∷ log) = one_if (is_aura step) + auras log

-- An action keeps a predicate on the log, however it ends.
pub record Keeps {A : Type 0} (P : List Step → Type 0) (m : Io A) : Type 0 where
  pub kept : (log : List Step) → P log → P (m log).1

-- An action that returns has started block production `k` times.
pub record Starts {A : Type 0} (k : ℕ) (m : Io A) : Type 0 where
  pub started : (log : List Step) (a : A) → (m log).0 ≡ returned a → auras (m log).1 ≡ auras log + k

module _ {A : Type 0} (P : List Step → Type 0) where
  pub pure-Keeps : (a : A) → Keeps P (pure a)
  pure-Keeps a = record { kept = λ log p. p }

  pub perform-Keeps :
      (step : Step) (answer : Answer A)
      → ((log : List Step) → P log → P (step ∷ log))
      → Keeps P (perform step answer)
  perform-Keeps step answer h = record { kept = h }

  pub map_err-Keeps : (f : Error → Error) (m : Io A) → Keeps P m → Keeps P (map_err f m)
  map_err-Keeps f m k = record { kept = k.kept }

  pub ok_or-Keeps : (o : Option A) (text : String) → Keeps P (ok_or o text)
  ok_or-Keeps none text = record { kept = λ log p. p }
  ok_or-Keeps (some a) text = record { kept = λ log p. p }

  pub expect-Keeps : (o : Option A) → Keeps P (expect o)
  expect-Keeps none = record { kept = λ log p. p }
  expect-Keeps (some a) = record { kept = λ log p. p }

module _ (P : List Step → Type 0) where
  pub record_step-Keeps :
      (step : Step) → ((log : List Step) → P log → P (step ∷ log)) → Keeps P (record_step step)
  record_step-Keeps step h = record { kept = h }

  pub when_true-Keeps : (b : Bool) (m : Io ⊤) → Keeps P m → Keeps P (when_true b m)
  when_true-Keeps true m k = record { kept = k.kept }
  when_true-Keeps false m k = record { kept = λ log p. p }

module _ {A B : Type 0} (P : List Step → Type 0) where
  continue-Keeps :
      (f : A → Io B)
      → ((a : A) → Keeps P (f a))
      → (r : Exit A) (log : List Step) → P log
      → P (continue f r log).1
  continue-Keeps f rest (returned a) log p = (rest a).kept log p
  continue-Keeps f rest (failed e) log p = p
  continue-Keeps f rest stopped log p = p

  pub bind-Keeps :
      {m : Io A} {f : A → Io B} → Keeps P m → ((a : A) → Keeps P (f a)) → Keeps P (m >>= f)
  unfolding ◌>>=◌
  bind-Keeps {m} {f} first rest = record {
    kept = λ log p. continue-Keeps f rest (m log).0 (m log).1 (first.kept log p);
  }

  -- An action after a value that is there.
  pub some-Keeps :
      (f : A → Io B) (o : Option A) (text : String) (a : A)
      → o ≡ some a
      → Keeps P (f a)
      → Keeps P (ok_or o text >>= f)
  unfolding ◌>>=◌
  some-Keeps f none text a e k = ground arith
  some-Keeps f (some b) text a e k = record {
    kept = subst (λ x. (log : List Step) → P log → P (f x log).1) (ground arith) k.kept;
  }

module _ {A B : Type 0} where
  -- An action whose first part returns.
  pub bind-returned :
      (m : Io A) (f : A → Io B) {log log' : List Step} {a : A} {r : Exit B × List Step}
      → m log ≡ (returned a, log')
      → f a log' ≡ r
      → (m >>= f) log ≡ r
  unfolding ◌>>=◌
  bind-returned m f e e' = ap (λ x. continue f x.0 x.1) e ∙ e'

  continue-Starts :
      (f : A → Io B) (k l : ℕ) (m : Io A)
      → Starts k m
      → ((a : A) → Starts l (f a))
      → (log : List Step) (r : Exit A) → (m log).0 ≡ r
      → (b : B) → (continue f r (m log).1).0 ≡ returned b
      → auras (continue f r (m log).1).1 ≡ auras log + (k + l)
  continue-Starts f k l m first rest log (returned a) e b h =
      omega (arith, first.started log a e, (rest a).started (m log).1 b h)
  continue-Starts f k l m first rest log (failed e') e b h = ground arith
  continue-Starts f k l m first rest log stopped e b h = ground arith

  pub bind-Starts :
      {m : Io A} {f : A → Io B} (k l : ℕ)
      → Starts k m
      → ((a : A) → Starts l (f a))
      → Starts (k + l) (m >>= f)
  unfolding ◌>>=◌
  bind-Starts {m} {f} k l first rest = record {
    started = λ log b h. continue-Starts f k l m first rest log (m log).0 refl b h;
  }

  -- A quiet action before one that starts block production, or after it.
  pub quiet_first :
      {m : Io A} {f : A → Io B} (k : ℕ)
      → Starts 0 m
      → ((a : A) → Starts k (f a))
      → Starts k (m >>= f)
  quiet_first {m} {f} k first rest =
      subst (λ j. Starts j (m >>= f)) {x = 0 + k} (omega arith) (bind-Starts 0 k first rest)

  pub quiet_rest :
      {m : Io A} {f : A → Io B} (k : ℕ)
      → Starts k m
      → ((a : A) → Starts 0 (f a))
      → Starts k (m >>= f)
  quiet_rest {m} {f} k first rest =
      subst (λ j. Starts j (m >>= f)) {x = k + 0} (omega arith) (bind-Starts k 0 first rest)

module _ {A : Type 0} where
  pub pure-Starts : (a : A) → Starts 0 (pure a)
  pure-Starts a = record { started = λ log b h. omega arith }

  -- What keeps every count starts nothing.
  pub Keeps-Starts : (m : Io A) → ((n : ℕ) → Keeps (λ log. auras log ≡ n) m) → Starts 0 m
  Keeps-Starts m k = record { started = λ log a h. omega (arith, (k (auras log)).kept log refl) }

  pub map_err-Starts : (k : ℕ) (f : Error → Error) (m : Io A) → Starts k m → Starts k (map_err f m)
  map_err-Starts k f m first = record { started = λ log a h. first.started log a (ground arith) }

  pub perform-Starts :
      (step : Step) (answer : Answer A) → Starts (one_if (is_aura step)) (perform step answer)
  perform-Starts step answer = record { started = λ log a h. omega arith }
