-- ===== src/Idt.antt =====
-- src/kernel/idt/idt.c and src/kernel/idt/idt.h: the interrupt descriptor table. `idt_table` is a list of gates; the
-- addresses of the assembly stubs `isr_x`, `sr0`, `sr20` and `sr21` are parameters.
pub mod Gates
use gensis32os.Prelude.{set, replicate, u16, ◌>>>◌, ℕ, zero, suc, ◌+◌, ◌-◌, ◌*◌, bit_and, List}

-- TOTAL_INTERRUPTS
abbrev pub total_interrupts : ℕ
total_interrupts = 512

abbrev pub kernel_code_selector : ℕ
kernel_code_selector = 0x08

-- _32INTERRUPT_KC_3_1
abbrev pub interrupt_kc_3_1 : ℕ
interrupt_kc_3_1 = 0xee

-- `struct idt_desc`
pub record IdtDesc : Type 0 where
  pub offset_l : ℕ
  pub selector : ℕ
  pub zero_byte : ℕ
  pub attr : ℕ
  pub offset_h : ℕ

-- `struct idtr`: the limit in bytes and the address of the table.
pub record Idtr : Type 0 where
  pub len : ℕ
  pub addr : ℕ

-- A cleared gate, as `memset` leaves it.
abbrev pub empty_gate : IdtDesc
empty_gate = record { offset_l = 0; selector = 0; zero_byte = 0; attr = 0; offset_h = 0 }

pub gate : (address : ℕ) → IdtDesc
gate address = record {
  offset_l = bit_and address 0x0000ffff;
  selector = kernel_code_selector;
  zero_byte = 0x00;
  attr = interrupt_kc_3_1;
  offset_h = address >>> 16;
}

-- `setup_idt32IKC31`; a gate out of the table would be written past it, which the caller never asks.
pub setup_gate : List IdtDesc → (interrupt_no address : ℕ) → List IdtDesc
setup_gate t n address = set t n (gate address)

-- `for(i = 0; i < TOTAL_INTERRUPTS; i++) setup_idt32IKC31(i, isr_x)`
pub setup_all : (left : ℕ) → List IdtDesc → (i isr_x : ℕ) → List IdtDesc
setup_all zero t i isr_x = t
setup_all (suc left) t i isr_x = setup_all left (setup_gate t i isr_x) (i + 1) isr_x

-- The table and the descriptor that `load_idtr` gets; the old table is overwritten. A gate is 8 bytes.
pub idt_init : (table_addr isr_x sr0 sr20 sr21 : ℕ) → List IdtDesc × Idtr
idt_init table_addr isr_x sr0 sr20 sr21 =
    let cleared = replicate total_interrupts empty_gate in
    let all = setup_all total_interrupts cleared 0 isr_x in
    (
      setup_gate (setup_gate (setup_gate all 0x00 sr0) 0x21 sr21) 0x20 sr20,
      record { len = u16 (total_interrupts * 8 - 1); addr = table_addr },
    )
