-- ===== src/Attach/Loop.antt =====
-- attach/attach.go: Run, from the control stream on. Times are in milliseconds. What the transport, the
-- local terminal and the context answer are arguments.
pub mod Header
pub mod Retries
use mosey.Base.{
  ℕ, zero, suc, ◌+◌, ◌*◌, ◌/◌, ◌%◌, ◌^◌, Bool, true, false, not, Option, none, some, List, [], ◌∷◌,
}
use mosey.Base.{◌++◌, Bytes, codes, ltb, ◌&&◌, ◌||◌, ◌==◌, if◌then◌else◌}
use Prim.Native.Nat.{bit_or}
use mosey.Attach.Errors.{GoError, wrap_error, is_fatal_dial_error, is_expected_shutdown}
use mosey.Attach.Errors.{is_protocol_not_supported}

abbrev pub reconnect_initial_delay : ℕ
reconnect_initial_delay = 200

abbrev pub reconnect_max_delay : ℕ
reconnect_max_delay = 5000

-- nextDelay
unfoldable pub next_delay : ℕ → ℕ
next_delay d = if ltb reconnect_max_delay (d * 2) then reconnect_max_delay else d * 2

-- The loop of encodeVarint: `out` are the bytes before index `i`, and `slots` are left of the array. A
-- write past the array's end would panic: `none`.
unfoldable pub varint_loop : ℕ → Bytes → ℕ → Option Bytes
varint_loop zero out v = none
varint_loop (suc slots) out v =
    let more = varint_loop slots (out ++ bit_or (v % 256) 0x80 ∷ []) (v / 128) in
    if ltb v 0x80 then some (out ++ v % 256 ∷ []) else more

-- encodeVarint
unfoldable pub encode_varint : ℕ → Option Bytes
encode_varint v = varint_loop 10 [] v

-- The variables of Run's loop: whether `proto` is the resume protocol.
pub record AttachState : Type 0 where
  pub resume : Bool
  pub delay : ℕ
  pub rendered : ℕ

abbrev pub fresh_attach : AttachState
fresh_attach = record { resume = false; delay = reconnect_initial_delay; rendered = 0 }

-- What happens in one round: the dial's error and that of writing the resume header, the context afterwards, whether it ends the wait for the
-- delay; the sizes of the chunks that were written to stdout, what ended the pump, and the context then.
pub record Round : Type 0 where
  pub dial_error : Option GoError
  pub header_error : Option GoError
  pub dead_at_dial : Bool
  pub dead_in_wait : Bool
  pub chunks : List ℕ
  pub pump_error : Option GoError
  pub dead_at_end : Bool

-- How a round ends: the loop goes on, or Run returns nil, an error, or the error of its context.
pub data Verdict : Type 0 where
  goes_on : AttachState → Verdict
  returns : Option GoError → Verdict
  cancelled : Verdict

abbrev pub open_text : Bool → Bytes
open_text true = codes "mosey/attach: open /mosey/pty-resume/1.0.0: "
open_text false = codes "mosey/attach: open /mosey/pty/1.0.0: "

-- The header that dialPTY writes.
abbrev pub dial_header : AttachState → Option Bytes
dial_header st = if st.resume then encode_varint st.rendered else some []

-- The atomic counter of rendered bytes, a uint64.
unfoldable pub add_rendered : ℕ → List ℕ → ℕ
add_rendered n [] = n
add_rendered n (k ∷ ks) = add_rendered ((n + k) % 2 ^ 64) ks

-- pumpStream gives nil for a bare EOF; with what else is_expected_shutdown takes, Run returns nil.
abbrev pub pump_over : AttachState → Round → Verdict
pump_over st r =
    if is_expected_shutdown r.pump_error
    then returns none
    else if r.dead_at_end
    then cancelled
    else goes_on (record st { resume = true })

abbrev pub retry_later : AttachState → Round → GoError → Verdict
retry_later st r e =
    if is_fatal_dial_error (some e) || r.dead_at_dial
    then returns (some e)
    else if r.dead_in_wait
    then cancelled
    else goes_on (record st { delay = next_delay st.delay })

-- The error of dialPTY: of the dial, or under the resume protocol of its header.
abbrev pub header_failure : Bool → Option GoError → Option GoError
header_failure false o = none
header_failure true none = none
header_failure true (some e) = some (wrap_error (codes "mosey/attach: send resume header: ") e)

abbrev pub dial_failure : Bool → Option GoError → Option GoError → Option GoError
dial_failure resume (some e) header = some (wrap_error (open_text resume) e)
dial_failure resume none header = header_failure resume header

-- dialPTY
unfoldable pub dial_pty : Bool → Round → Option GoError
dial_pty resume r = dial_failure resume r.dial_error r.header_error

abbrev pub after_dial : AttachState → Round → Option GoError → Verdict
after_dial st r (some e) = retry_later st r e
after_dial st r none =
    pump_over
      (record st { delay = reconnect_initial_delay; rendered = add_rendered st.rendered r.chunks })
      r

-- One round of Run's loop.
unfoldable pub attach_round : AttachState → Round → Verdict
attach_round st r = after_dial st r (dial_pty st.resume r)

abbrev pub then_rounds : (AttachState → Verdict) → Verdict → Verdict
then_rounds next (goes_on st) = next st
then_rounds next (returns e) = returns e
then_rounds next cancelled = cancelled

-- The loop, over what happens in its rounds.
unfoldable pub attach_loop : List Round → AttachState → Verdict
attach_loop [] st = goes_on st
attach_loop (r ∷ rs) st = then_rounds (attach_loop rs) (attach_round st r)

-- newControlClient: the attach goes on without a control stream where the peer lacks the protocol.
abbrev pub control_verdict : Option GoError → Option GoError
control_verdict none = none
control_verdict (some e) =
    if is_protocol_not_supported (some e)
    then none
    else some (wrap_error (codes "mosey/attach: open /mosey/control/1.0.0: ") e)

-- Run behind the checks of its options.
unfoldable pub attach_run : Option GoError → List Round → Verdict
attach_run control rounds = elim (control_verdict control) [
  | some e ↦ returns (some e)
  | none ↦ attach_loop rounds fresh_attach
]
