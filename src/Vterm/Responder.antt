-- ===== src/Vterm/Responder.antt =====
-- vterm/queries.go: daResponder, which answers Device Attribute queries in the program's output and
-- strips them from what attached clients see.
pub mod Splits
pub mod Chunks
use mosey.Base.{ℕ, Bool, true, false, List, [], ◌∷◌, ◌++◌, Bytes, codes, bytes_eq, drop}
use mosey.Base.{◌==◌, if◌then◌else◌, ◌||◌}

-- daState
pub data DaState : Type 0 where
  da_ground da_esc da_csi : DaState

-- `held` is the start of a sequence that may turn out to be a query.
pub record DaResponder : Type 0 where
  pub state : DaState
  pub held : Bytes

abbrev pub esc : ℕ
esc = 0x1b

abbrev pub da1_response : Bytes
da1_response = esc ∷ codes "[?62;22c"

abbrev pub da2_response : Bytes
da2_response = esc ∷ codes "[>0;10;0c"

-- The responder with the bytes to broadcast and the bytes to write back.
pub record Processed : Type 0 where
  pub responder : DaResponder
  pub out : Bytes
  pub resp : Bytes

abbrev pub fresh : DaResponder
fresh = record { state = da_ground; held = [] }

-- A byte that meets the ground state.
unfoldable pub ground_byte : Bytes → Bytes → Bytes → ℕ → Processed
ground_byte held out resp b =
    if b == esc
    then record { responder = record { state = da_esc; held = b ∷ [] }; out = out; resp = resp }
    else record {
      responder = record { state = da_ground; held = held };
      out = out ++ b ∷ [];
      resp = resp;
    }

-- `case 'c'`: the parameters behind "ESC [" say whether this is a query, and which.
unfoldable pub final_c : Bytes → Bytes → Bytes → Processed
final_c held out resp =
    let params = drop 2 held in
    if bytes_eq params [] || bytes_eq params (codes "0")
    then record { responder = fresh; out = out; resp = resp ++ da1_response }
    else if bytes_eq params (codes ">") || bytes_eq params (codes ">0")
    then record { responder = fresh; out = out; resp = resp ++ da2_response }
    else record { responder = fresh; out = out ++ held ++ b'c' ∷ []; resp = resp }

-- One round of the loop of `process`.
unfoldable pub process_byte : DaState → Bytes → Bytes → Bytes → ℕ → Processed
process_byte da_ground held out resp b = ground_byte held out resp b
process_byte da_esc held out resp b =
    if b == b'['
    then record {
      responder = record { state = da_csi; held = held ++ b ∷ [] };
      out = out;
      resp = resp;
    }
    else ground_byte [] (out ++ held) resp b
process_byte da_csi held out resp b =
    if b == b'0' || b == b'>'
    then record {
      responder = record { state = da_csi; held = held ++ b ∷ [] };
      out = out;
      resp = resp;
    }
    else if b == b'c'
    then final_c held out resp
    else ground_byte [] (out ++ held) resp b

unfoldable pub process_loop : Bytes → Processed → Processed
process_loop [] p = p
process_loop (b ∷ bs) p =
    process_loop bs (process_byte p.responder.state p.responder.held p.out p.resp b)

-- process
unfoldable pub process : DaResponder → Bytes → Processed
process d bs = process_loop bs (record { responder = d; out = []; resp = [] })
