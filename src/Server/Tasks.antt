-- ===== src/Server/Tasks.antt =====
-- letmeind/src/main.rs, `async_main` behind its start: the task that accepts connections, those that
-- serve them, and the main loop with its exit; with `Connection` of letmeind/src/server.rs, whose
-- `drop` asserts that it was closed. An interleaving of the tasks is a sequence of inputs.
use letmein.Base.{
  ℕ, zero, suc, ◌≡◌, refl, ◌≢◌, Bool, true, false, Option, List, [], ◌∷◌, if◌then◌else◌, Result, ok,
  err, panic, All,
}
use letmein.Base.Bytes.{Bytes}
use letmein.Base.Texts.{Text}
use letmein.Conf.{Config, server_variant}
use letmein.Conf.Durations.{F64}
use letmein.Conf.Load.{new_config, load}
use letmein.FwProto.Fields.{IpAddr}
use letmein.Proto.Message.{Key}
use letmein.Server.Protocol.{run}
use letmein.Server.Protocol.NoPanic.{run_no_panic}
use letmein.Server.Protocol.Sure.{GoodRandom}
use letmein.Server.Session.{Session, Failure}

-- `serves` is one of the connections that wait for their task, with its peer and its network.
pub data Input : Type 0 where
  connects : (accepted : Bool) → Input
  serves : IpAddr → Session → Input
  hangup terminate interrupt socket_report : Input

-- `accepting` tells whether the accept loop still runs.
pub record Tasks : Type 0 where
  pub accepting : Bool
  pub waiting : ℕ

-- A panic aborts the program, by the release profile of Cargo.toml.
pub data Exit : Type 0 where
  runs : Tasks → Exit
  exits : (success : Bool) → Exit
  aborts : Exit

abbrev pub connected : Bool → Tasks → Tasks
connected true t = record t { waiting = suc t.waiting }
connected false t = record t { accepting = false }

module _ (mac : Key → Bytes → Bytes) (conf : Config) where
  -- `run`, and then `close`; an error of `run` is only printed.
  abbrev pub served {ℓ} : {A : Type ℓ} → Result Failure A → Tasks → Exit
  served (ok a) t = runs t
  served (err e) t = runs t
  served panic t = aborts

  abbrev pub serve_one : IpAddr → Session → ℕ → Tasks → Exit
  serve_one peer s zero t = runs t
  serve_one peer s (suc n) t = served (run mac conf peer s).0 (record t { waiting = n })

  unfoldable pub step : Input → Tasks → Exit
  unfolding run
  step (connects accepted) t = runs (if t.accepting then connected accepted t else t)
  step (serves peer s) t = serve_one peer s t.waiting t
  step hangup t = runs t
  step terminate t = exits true
  step interrupt t = exits false
  step socket_report t = if t.accepting then runs t else exits false

  abbrev pub after : Exit → (Tasks → Exit) → Exit
  after (runs t) f = f t
  after (exits success) f = exits success
  after aborts f = aborts

  unfoldable pub run_tasks : List Input → Tasks → Exit
  unfolding step
  run_tasks [] t = runs t
  run_tasks (i ∷ is) t = after (step i t) (run_tasks is)

-- The random source answers in each session what `secure_random` accepts.
abbrev pub IsGood : Input → Type 0
IsGood (serves peer s) = GoodRandom s.fills
IsGood _ = Unit {0}

module _ (mac : Key → Bytes → Bytes) (read_f64 : Text → Option F64) (file : Option Text)
    (conf : Config) (loaded : load read_f64 (new_config server_variant) file ≡ ok conf) where
  served-survives :
      {A : Type 0} (r : Result Failure A) (t : Tasks) → r ≢ panic → served mac conf r t ≢ aborts
  served-survives (ok a) t h = λ e. cc
  served-survives (err x) t h = λ e. cc
  served-survives panic t h = absurd (h refl)

  serve_one-survives :
      (peer : IpAddr) (s : Session) (n : ℕ) (t : Tasks)
      → GoodRandom s.fills
      → serve_one mac conf peer s n t ≢ aborts
  serve_one-survives peer s zero t h = λ e. cc
  serve_one-survives peer s (suc n) t h =
      served-survives (run mac conf peer s).0 (record t { waiting = n })
        (run_no_panic read_f64 file conf mac peer s loaded h)

  step-survives : (i : Input) (t : Tasks) → IsGood i → step mac conf i t ≢ aborts
  unfolding step
  step-survives (connects accepted) t g = λ e. cc
  step-survives (serves peer s) t g = serve_one-survives peer s t.waiting t g
  step-survives hangup t g = λ e. cc
  step-survives terminate t g = λ e. cc
  step-survives interrupt t g = λ e. cc
  step-survives socket_report t g = by_case t.accepting
    where
      by_case : (b : Bool) → (if b then runs t else exits false) ≢ aborts
      by_case true = λ e. cc
      by_case false = λ e. cc

  after-survives :
      (x : Exit) (f : Tasks → Exit)
      → x ≢ aborts
      → ((t : Tasks) → f t ≢ aborts)
      → after mac conf x f ≢ aborts
  after-survives (runs t) f h k = k t
  after-survives (exits success) f h k = λ e. cc
  after-survives aborts f h k = absurd (h refl)

  -- With a configuration that it has loaded, letmeind serves any sequence of connections without an
  -- abort: no task panics, so each closes its connection before it drops it.
  pub run_tasks-survives :
      (inputs : List Input) (t : Tasks) → All IsGood inputs → run_tasks mac conf inputs t ≢ aborts
  unfolding run_tasks
  run_tasks-survives [] t g = λ e. cc
  run_tasks-survives (i ∷ inputs) t g =
      after-survives (step mac conf i t) (run_tasks mac conf inputs) (step-survives i t g.0)
        (λ t'. run_tasks-survives inputs t' g.1)
