-- ===== src/Conn/Control.antt =====
-- WriteControl: the frame that it builds and what it sends.
use magilla.Base.{ℕ, true, false, List, none, some}
use magilla.Base.{if◌then◌else◌}
use magilla.Conn.{Conn}
use magilla.Conn.Write.{masks, new_mask_key}
use magilla.Frame.{Frame}

-- The frame of a control message.
abbrev pub control : ℕ → List ℕ → Conn → Frame
control message_type body c = record {
  final = true;
  compressed = false;
  opcode = message_type;
  key = if masks c then some (new_mask_key c.rand).0 else none;
  payload = body;
}
