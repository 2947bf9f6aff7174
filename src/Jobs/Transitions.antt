-- ===== src/Jobs/Transitions.antt =====
-- The states of lead_engine/jobs.py and the table TRANSITIONS.
use lead_engine.Prelude.{ℕ, ◌≡◌, Bool, true, false, ◌==◌, arith}

pub data State : Type 0 where
  queued running degraded paused resuming completed failed : State
  discovering researching verifying qualifying waiting_for_user ready_for_review cancelled : State

-- RESEARCH_PHASES
abbrev pub is_phase : State → Bool
is_phase discovering = true
is_phase researching = true
is_phase verifying = true
is_phase qualifying = true
is_phase _ = false

-- INTERRUPTED_STATES
abbrev pub is_interrupted : State → Bool
is_interrupted running = true
is_interrupted resuming = true
is_interrupted degraded = true
is_interrupted discovering = true
is_interrupted researching = true
is_interrupted verifying = true
is_interrupted qualifying = true
is_interrupted _ = false

abbrev phase_exit : State → Bool
phase_exit running = true
phase_exit paused = true
phase_exit failed = true
phase_exit cancelled = true
phase_exit waiting_for_user = true
phase_exit ready_for_review = true
phase_exit s = is_phase s

abbrev from_queued : State → Bool
from_queued running = true
from_queued failed = true
from_queued cancelled = true
from_queued _ = false

abbrev from_running : State → Bool
from_running degraded = true
from_running paused = true
from_running completed = true
from_running failed = true
from_running waiting_for_user = true
from_running ready_for_review = true
from_running cancelled = true
from_running s = is_phase s

abbrev from_degraded : State → Bool
from_degraded running = true
from_degraded paused = true
from_degraded completed = true
from_degraded failed = true
from_degraded cancelled = true
from_degraded _ = false

abbrev from_paused : State → Bool
from_paused resuming = true
from_paused failed = true
from_paused cancelled = true
from_paused _ = false

abbrev from_resuming : State → Bool
from_resuming running = true
from_resuming paused = true
from_resuming failed = true
from_resuming _ = false

abbrev from_waiting_for_user : State → Bool
from_waiting_for_user running = true
from_waiting_for_user cancelled = true
from_waiting_for_user failed = true
from_waiting_for_user _ = false

abbrev from_ready_for_review : State → Bool
from_ready_for_review completed = true
from_ready_for_review running = true
from_ready_for_review cancelled = true
from_ready_for_review failed = true
from_ready_for_review _ = false

-- to_state in TRANSITIONS.get(from_state, set())
unfoldable pub allows : State → State → Bool
allows queued to = from_queued to
allows running to = from_running to
allows degraded to = from_degraded to
allows paused to = from_paused to
allows resuming to = from_resuming to
allows completed to = false
allows failed to = false
allows cancelled to = false
allows waiting_for_user to = from_waiting_for_user to
allows ready_for_review to = from_ready_for_review to
allows discovering to = phase_exit to
allows researching to = phase_exit to
allows verifying to = phase_exit to
allows qualifying to = phase_exit to

abbrev state_index : State → ℕ
state_index queued = 0
state_index running = 1
state_index degraded = 2
state_index paused = 3
state_index resuming = 4
state_index completed = 5
state_index failed = 6
state_index discovering = 7
state_index researching = 8
state_index verifying = 9
state_index qualifying = 10
state_index waiting_for_user = 11
state_index ready_for_review = 12
state_index cancelled = 13

unfoldable pub state_eq : State → State → Bool
state_eq s t = state_index s == state_index t

pub state_eq_refl : (s : State) → state_eq s s ≡ true
unfolding state_eq
state_eq_refl s = ground arith

pub state_eq_sound : (s t : State) → state_eq s t ≡ true → s ≡ t
unfolding state_eq
state_eq_sound s t h = ground arith
