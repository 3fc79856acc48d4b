-- ===== src/Idt/Gates.antt =====
-- Where each interrupt goes after `idt_init`.
use gensis32os.Prelude.Bits.{bit_and_mask}
use gensis32os.Prelude.{
  ltb, leb, ◌==◌, if◌then◌else◌, eq_or_ne, length, get_or, set, replicate, length-set,
  get_or-set_self, get_or-set_ne, ℕ, zero, suc, ◌+◌, ◌-◌, ◌*◌, ◌^◌, ◌≤◌, ◌<◌, ◌≡◌, refl, sym, ap,
  ◌∙◌, subst, inl, inr, ◌&&◌, List, arith,
}
use gensis32os.Idt.{IdtDesc, empty_gate, gate, setup_gate, setup_all, idt_init}

-- The handler address that the processor puts together from a gate.
abbrev pub handler : IdtDesc → ℕ
handler g = g.offset_h * 2 ^ 16 + g.offset_l

-- A gate holds the address that it was made for in its two halves, each of 16 bits, with the kernel's
-- code segment.
pub handler-gate :
    (address : ℕ)
    → address < 2 ^ 32
    → (handler (gate address) ≡ address)
      × ((gate address).offset_l < 2 ^ 16)
      × ((gate address).offset_h < 2 ^ 16)
      × ((gate address).selector ≡ 0x08)
unfolding gate
handler-gate address h = (
  omega (arith, bit_and_mask 16 address),
  omega (arith, bit_and_mask 16 address),
  omega arith,
  refl,
)

length-setup_all :
    (left : ℕ) (t : List IdtDesc) (i isr_x : ℕ) → length (setup_all left t i isr_x) ≡ length t
unfolding setup_all setup_gate
length-setup_all zero t i isr_x = refl
length-setup_all (suc left) t i isr_x =
    length-setup_all left (set t i (gate isr_x)) (i + 1) isr_x ∙ length-set t i (gate isr_x)

setup_all-at :
    (left : ℕ) (t : List IdtDesc) (i isr_x k : ℕ)
    → k < length t
    → get_or (setup_all left t i isr_x) k empty_gate
      ≡ (if leb i k && ltb k (i + left) then gate isr_x else get_or t k empty_gate)
unfolding setup_all setup_gate
setup_all-at zero t i isr_x k h = ground arith
setup_all-at (suc left) t i isr_x k h = elim (eq_or_ne i k) [
  | inl e ↦ ground (
    arith,
    e,
    length-set t i (gate isr_x),
    get_or-set_self t k (gate isr_x) empty_gate h,
    setup_all-at left (set t i (gate isr_x)) (i + 1) isr_x k,
  )
  | inr ne ↦ ground (
    arith,
    length-set t i (gate isr_x),
    get_or-set_ne t i k (gate isr_x) empty_gate ne,
    setup_all-at left (set t i (gate isr_x)) (i + 1) isr_x k,
  )
]

length-replicate {ℓ} : {A : Type ℓ} (n : ℕ) (a : A) → length (replicate n a) ≡ n
length-replicate zero a = refl
length-replicate (suc n) a = ap suc (length-replicate n a)

idt_table-at :
    (n : ℕ) (t : List IdtDesc) (isr_x sr0 sr20 sr21 k : ℕ)
    → length t ≡ n
    → k < n
    → 0x22 ≤ n
    → let r =
        setup_gate (setup_gate (setup_gate (setup_all n t 0 isr_x) 0x00 sr0) 0x21 sr21) 0x20 sr20 in
      (length r ≡ n)
      × (get_or r k empty_gate
          ≡ gate (
              if k == 0
              then sr0
              else if k == 0x20
              then sr20
              else if k == 0x21
              then sr21
              else isr_x))
unfolding setup_gate
idt_table-at n t isr_x sr0 sr20 sr21 k l h w =
    let all = setup_all n t 0 isr_x in
    let len : length all ≡ n = length-setup_all n t 0 isr_x ∙ l in
    let at = setup_all-at n t 0 isr_x k (subst (λ m. k < m) (sym l) h) in
    let one = set all 0x00 (gate sr0) in
    let two = set one 0x21 (gate sr21) in
    let len1 : length one ≡ n = length-set all 0x00 (gate sr0) ∙ len in
    let len2 : length two ≡ n = length-set one 0x21 (gate sr21) ∙ len1 in
    (
      length-set two 0x20 (gate sr20) ∙ len2,
      elim (eq_or_ne k 0x20) [
        | inl e ↦ ground (arith, e, len2, get_or-set_self two 0x20 (gate sr20) empty_gate)
        | inr a ↦ elim (eq_or_ne k 0x21) [
          | inl e ↦ ground (
            arith,
            e,
            len1,
            get_or-set_ne two 0x20 k (gate sr20) empty_gate,
            get_or-set_self one 0x21 (gate sr21) empty_gate,
          )
          | inr b ↦ elim (eq_or_ne k 0) [
            | inl e ↦ ground (
              arith,
              e,
              len,
              get_or-set_ne two 0x20 k (gate sr20) empty_gate,
              get_or-set_ne one 0x21 k (gate sr21) empty_gate,
              get_or-set_self all 0 (gate sr0) empty_gate,
            )
            | inr c ↦ ground (
              arith,
              at,
              get_or-set_ne two 0x20 k (gate sr20) empty_gate,
              get_or-set_ne one 0x21 k (gate sr21) empty_gate,
              get_or-set_ne all 0 k (gate sr0) empty_gate,
            )
          ]
        ]
      ],
    )

-- After `idt_init` every one of the 512 gates leads to a handler: 0, 0x20 and 0x21 to their own, every
-- other one to the default; the limit is that of the whole table.
pub idt_init-handlers :
    (table_addr isr_x sr0 sr20 sr21 k : ℕ)
    → k < 512
    → let (t, d) = idt_init table_addr isr_x sr0 sr20 sr21 in
      (length t ≡ 512)
      × (d.len ≡ 8 * 512 - 1)
      × (d.addr ≡ table_addr)
      × (get_or t k empty_gate
          ≡ gate (
              if k == 0
              then sr0
              else if k == 0x20
              then sr20
              else if k == 0x21
              then sr21
              else isr_x))
unfolding idt_init
idt_init-handlers table_addr isr_x sr0 sr20 sr21 k h =
    let cleared = replicate 512 empty_gate in
    let (len, at) =
      idt_table-at 512 cleared isr_x sr0 sr20 sr21 k (length-replicate 512 empty_gate) h
        (omega arith) in
    (len, omega arith, refl, at)
