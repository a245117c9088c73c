-- ===== src/Signal/Shutdown.antt =====
-- forest/core.py, `Signal.sync_signal_handler` and `Signal.async_shutdown`: what SIGINT does.
use forestfire.Prelude.{ℕ, suc, Bool, true, List, [], ◌∷◌, ◌++◌, if◌then◌else◌, leb}

-- `schedule` hands the shutdown to the loop that runs.
pub data Effect : Type 0 where
  kill close_pool stop_backups schedule : Effect
  exit : ℕ → Effect

pub record Process : Type 0 where
  pub sigints : ℕ
  pub exiting : Bool
  -- whether there is a child process, dead or alive
  pub proc : Bool

-- `restore` is `utils.RESTORE`. A process that is dead already is only logged.
unfoldable pub async_shutdown : Bool → Process → List Effect
async_shutdown restore s =
    (if s.proc then kill ∷ [] else [])
    ++ (close_pool ∷ (if restore then stop_backups ∷ [] else []))
    ++ (exit 0 ∷ [])

-- `running` tells whether a loop runs; where none does, the exit of the shutdown ends the handler.
unfoldable pub sync_signal_handler : Bool → Bool → Process → List Effect × Process
unfolding async_shutdown
sync_signal_handler restore running s =
    let s' = record s { sigints = suc s.sigints; exiting = true } in
    if running
    then (schedule ∷ (if leb 3 s'.sigints then exit 1 ∷ [] else []), s')
    else (async_shutdown restore s', s')
