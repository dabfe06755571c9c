-- ===== src/Kernel/Memory.antt =====
-- Bytes of memory: phys_copy and memset (lib/string.asm), 32-bit stores.
use bz_os.Prelude.{
  ℕ, zero, suc, ◌+◌, ◌*◌, ◌/◌, ◌%◌, ◌^◌, ◌≤◌, ◌<◌, ◌≡◌, refl, ap, ◌∙◌, ◌⊎◌, arith, update,
}

abbrev pub Memory : Type 0
Memory = ℕ → ℕ

-- memcpy, a byte at a time upwards; phys_copy is the same routine (include/string.h)
unfoldable pub phys_copy : ℕ → ℕ → ℕ → Memory → Memory
phys_copy dst src zero mem = mem
phys_copy dst src (suc n) mem = phys_copy (dst + 1) (src + 1) n (update mem dst (mem src))

unfoldable pub memset : ℕ → ℕ → ℕ → Memory → Memory
memset dst ch zero mem = mem
memset dst ch (suc n) mem = memset (dst + 1) ch n (update mem dst ch)

-- *(u32*) a = v, the low byte first
unfoldable pub store32 : ℕ → ℕ → Memory → Memory
store32 a v mem =
    update
      (update (update (update mem a (v % 256)) (a + 1) (v / 256 % 256)) (a + 2) (v / 65536 % 256))
      (a + 3) (v / 16777216 % 256)

-- *(u32*) a
unfoldable pub load32 : ℕ → Memory → ℕ
load32 a mem = mem a + mem (a + 1) * 256 + mem (a + 2) * 65536 + mem (a + 3) * 16777216

pub phys_copy-outside :
    (dst src n : ℕ) (mem : Memory) (a : ℕ)
    → (a < dst) ⊎ (dst + n ≤ a)
    → phys_copy dst src n mem a ≡ mem a
unfolding phys_copy
phys_copy-outside dst src zero mem a h = refl
phys_copy-outside dst src (suc n) mem a h =
    ground (arith, phys_copy-outside (dst + 1) (src + 1) n (update mem dst (mem src)) a)

-- If the two areas do not meet, after phys_copy each byte of the destination is the byte of the
-- source before the copy.
pub phys_copy-inside :
    (dst src n : ℕ) (mem : Memory) (i : ℕ)
    → (dst + n ≤ src) ⊎ (src + n ≤ dst)
    → i < n
    → phys_copy dst src n mem (dst + i) ≡ mem (src + i)
unfolding phys_copy
phys_copy-inside dst src zero mem i d h = elim h [ ]
phys_copy-inside dst src (suc n) mem zero d h =
    let e : dst + 0 ≡ dst = omega arith in
    let e' : src + 0 ≡ src = omega arith in
    rw (e, e')
      (ground (arith, phys_copy-outside (dst + 1) (src + 1) n (update mem dst (mem src)) dst))
phys_copy-inside dst src (suc n) mem (suc i) d h =
    let e : dst + suc i ≡ dst + 1 + i = omega arith in
    let e' : src + suc i ≡ src + 1 + i = omega arith in
    rw (e, e') (ground (arith, phys_copy-inside (dst + 1) (src + 1) n (update mem dst (mem src)) i))

pub load32-store32 : (a v : ℕ) (m : Memory) → v < 2 ^ 32 → load32 a (store32 a v m) ≡ v
unfolding load32 store32
load32-store32 a v m lt =
    let b0 : store32 a v m a ≡ v % 256 = ground arith in
    let b1 : store32 a v m (a + 1) ≡ v / 256 % 256 = ground arith in
    let b2 : store32 a v m (a + 2) ≡ v / 65536 % 256 = ground arith in
    let b3 : store32 a v m (a + 3) ≡ v / 16777216 % 256 = ground arith in
    omega (arith, b0, b1, b2, b3)

pub load32-store32_ne :
    (a b v : ℕ) (m : Memory) → (a + 4 ≤ b) ⊎ (b + 4 ≤ a) → load32 a (store32 b v m) ≡ load32 a m
unfolding load32 store32
load32-store32_ne a b v m d = ground arith

pub load32-congr :
    (a : ℕ) (m m' : Memory) → ((j : ℕ) → j < 4 → m' (a + j) ≡ m (a + j)) → load32 a m' ≡ load32 a m
unfolding load32
load32-congr a m m' h =
    let e : m' a ≡ m a = ap m' (omega arith) ∙ h 0 (omega arith) ∙ ap m (omega arith) in
    cc (e, h 1 (omega arith), h 2 (omega arith), h 3 (omega arith))
