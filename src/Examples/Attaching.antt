-- ===== src/Examples/Attaching.antt =====
-- The theorems on the attaching client at concrete inputs.
use mosey.Base.{ℕ, true, false, none, some, [], ◌∷◌, ◌++◌, Bytes, codes, min, map}
use mosey.Base.{ok, ◌≡◌, ◌≤◌, ◌*◌, ◌^◌, refl, arith}
use mosey.Attach.Errors.{
  GoError, is_expected_shutdown, is_fatal_dial_error, contains_one, contains, index_from,
}
use mosey.Attach.Loop.{dial_pty}
use mosey.Attach.Loop.{
  reconnect_max_delay, next_delay, AttachState, fresh_attach, Round, goes_on, attach_loop,
}
use mosey.Attach.Loop.{attach_round, add_rendered, dial_header}
use mosey.Attach.Loop.Header.{resume_header_counts}
use mosey.Attach.Loop.Retries.{Transient, waiting, Transient-back_off, mac_mismatches}
use mosey.Attach.Loop.Retries.{unacknowledged, rejected, rejected_dials_are_retried}
use mosey.Wallet.Text.{has_prefix}
use mosey.Vterm.Varint.{read_resume_seq}

abbrev plain_error : Bytes → GoError
plain_error text = record {
  text = text;
  is_eof = false;
  is_reset = false;
  is_canceled = false;
  is_deadline = false;
}

-- A round that renders 300 bytes and breaks off, and one whose dial fails.
abbrev broken_round : Round
broken_round = record {
  dial_error = none;
  header_error = none;
  dead_at_dial = false;
  dead_in_wait = false;
  chunks = 100 ∷ 200 ∷ [];
  pump_error = some (plain_error (codes "broken pipe"));
  dead_at_end = false;
}

abbrev failing_round : Round
failing_round = record broken_round {
  dial_error = some (plain_error (codes "no route"));
  header_error = none;
  chunks = [];
}

abbrev broken_state : AttachState
broken_state = record { resume = true; delay = 400; rendered = 300 }

broken_goes_on : attach_loop (broken_round ∷ failing_round ∷ []) fresh_attach ≡ goes_on broken_state
unfolding attach_loop attach_round dial_pty is_expected_shutdown is_fatal_dial_error contains_one
    contains index_from has_prefix add_rendered next_delay
broken_goes_on = refl

resume_header_counts_example :
    (bs : Bytes) × (dial_header broken_state ≡ some bs)
    × (read_resume_seq (bs ++ codes "x") none ≡ ok (300, codes "x"))
unfolding dial_pty
resume_header_counts_example =
    resume_header_counts (broken_round ∷ failing_round ∷ []) broken_state (codes "x") none
      broken_goes_on refl (omega arith)

no_route-Transient : Transient false failing_round
unfolding dial_pty is_fatal_dial_error contains_one contains index_from has_prefix
no_route-Transient = (_, refl, refl, refl, refl)

Transient-back_off_example :
    attach_loop (failing_round ∷ failing_round ∷ []) fresh_attach
    ≡ goes_on (waiting fresh_attach (min (200 * 2 ^ 2) reconnect_max_delay))
Transient-back_off_example =
    Transient-back_off (failing_round ∷ failing_round ∷ []) fresh_attach (omega arith)
      (no_route-Transient, (no_route-Transient, tt))

rejected_dials_are_retried_example :
    (d : ℕ) × (d ≤ reconnect_max_delay)
    × (attach_loop (map rejected (mac_mismatches ∷ unacknowledged ∷ [])) broken_state
        ≡ goes_on (waiting broken_state d))
rejected_dials_are_retried_example =
    rejected_dials_are_retried (mac_mismatches ∷ unacknowledged ∷ []) broken_state (omega arith)
