-- ===== src/Vmm/Serial.antt =====
-- `SerialState` of crates/nova-vmm/src/exit_handler.rs: the registers of COM1.
pub mod Input
use nova_vm.Common.{
  ℕ, Bool, true, false, not, ◌&&◌, ◌||◌, List, [], ◌∷◌, ◌++◌, ◌==◌, if◌then◌else◌, bit_and, bit_or,
}

pub record SerialState : Type 0 where
  pub ier : ℕ
  pub lcr : ℕ
  pub mcr : ℕ
  pub scr : ℕ
  pub dll : ℕ
  pub dlm : ℕ
  pub thre_pending : Bool
  pub input_queue : List ℕ

-- `SerialState::new`
unfoldable pub new : SerialState
new = record {
  ier = 0;
  lcr = 0;
  mcr = 0;
  scr = 0;
  dll = 1;
  dlm = 0;
  thre_pending = false;
  input_queue = [];
}

unfoldable pub dlab : SerialState → Bool
dlab s = not (bit_and s.lcr 0x80 == 0)

unfoldable pub thre_int_enabled : SerialState → Bool
thre_int_enabled s = not (bit_and s.ier 0x02 == 0)

unfoldable pub rda_int_enabled : SerialState → Bool
rda_int_enabled s = not (bit_and s.ier 0x01 == 0)

-- The registers, by their ports; `rbr_thr` is 0x3F8.
pub data Port : Type 0 where
  rbr_thr ier iir_fcr lcr mcr lsr msr scr unknown : Port

unfoldable pub port_at : ℕ → Port
port_at port =
    if port == 0x3F8
    then Port.rbr_thr
    else if port == 0x3F9
    then Port.ier
    else if port == 0x3FA
    then Port.iir_fcr
    else if port == 0x3FB
    then Port.lcr
    else if port == 0x3FC
    then Port.mcr
    else if port == 0x3FD
    then Port.lsr
    else if port == 0x3FE
    then Port.msr
    else if port == 0x3FF
    then Port.scr
    else Port.unknown

-- `if self.thre_int_enabled() { self.thre_pending = true; }`
abbrev pub schedule : SerialState → SerialState
schedule s = if thre_int_enabled s then record s { thre_pending = true } else s

-- The Boolean is true when a data byte was written.
unfoldable pub write_port : SerialState → Port → ℕ → SerialState × Bool
write_port s Port.rbr_thr value =
    if dlab s then (record s { dll = value }, false) else (schedule s, true)
write_port s Port.ier value =
    if dlab s
    then (record s { dlm = value }, false)
    else (schedule (record s { ier = value }), false)
write_port s Port.iir_fcr value = (s, false)
write_port s Port.lcr value = (record s { lcr = value }, false)
write_port s Port.mcr value = (record s { mcr = value }, false)
write_port s Port.lsr value = (s, false)
write_port s Port.msr value = (s, false)
write_port s Port.scr value = (record s { scr = value }, false)
write_port s Port.unknown value = (s, false)

-- `SerialState::write`
unfoldable pub write : SerialState → ℕ → ℕ → SerialState × Bool
write s port value = write_port s (port_at port) value

unfoldable pub queue_input : SerialState → List ℕ → SerialState
queue_input s bytes = record s { input_queue = s.input_queue ++ bytes }

abbrev pub has_input : SerialState → Bool
has_input s = elim s.input_queue [ [] ↦ false | b ∷ bs ↦ true ]

-- `pop_front().unwrap_or(0)`
unfoldable pub read_rbr : SerialState → SerialState × ℕ
read_rbr s = elim s.input_queue [ [] ↦ (s, 0) | b ∷ bs ↦ (record s { input_queue = bs }, b) ]

unfoldable pub read_iir : SerialState → SerialState × ℕ
read_iir s =
    if has_input s && rda_int_enabled s
    then (s, 0x04)
    else if s.thre_pending
    then (record s { thre_pending = false }, 0x02)
    else (s, 0x01)

unfoldable pub read_port : SerialState → Port → SerialState × ℕ
read_port s Port.rbr_thr = if dlab s then (s, s.dll) else read_rbr s
read_port s Port.ier = if dlab s then (s, s.dlm) else (s, s.ier)
read_port s Port.iir_fcr = read_iir s
read_port s Port.lcr = (s, s.lcr)
read_port s Port.mcr = (s, s.mcr)
read_port s Port.lsr = (s, bit_or 0x60 (if has_input s then 0x01 else 0x00))
read_port s Port.msr = (s, 0x00)
read_port s Port.scr = (s, s.scr)
read_port s Port.unknown = (s, 0xFF)

-- `SerialState::read`
unfoldable pub read : SerialState → ℕ → SerialState × ℕ
read s port = read_port s (port_at port)

unfoldable pub needs_irq : SerialState → Bool
needs_irq s = s.thre_pending || (has_input s && rda_int_enabled s)

unfoldable pub default_io_read : ℕ → ℕ
default_io_read port = if port == 0x71 then 0x00 else if port == 0x61 then 0x20 else 0xFF
