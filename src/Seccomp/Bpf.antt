-- ===== src/Seccomp/Bpf.antt =====
-- Classic BPF as native/src/linux/seccomp.rs uses it: its instructions and opcodes, and the
-- interpreter that the file's tests run the filter with. Jumps only go forward, so a jump is a count
-- of instructions to skip and the run is a recursion on the program.
use Prim.Native.Nat.{bit_and}
use micro_sandbox.Prelude.{
  ℕ, zero, suc, ◌/◌, ◌%◌, ◌≡◌, refl, Bool, not, Option, none, some, List, [], ◌∷◌, ◌++◌, length,
  get_elem?, leb, ◌==◌, if◌then◌else◌,
}

pub record SockFilter : Type 0 where
  pub code : ℕ
  pub jt : ℕ
  pub jf : ℕ
  pub k : ℕ

abbrev pub bpf_ld_w_abs : ℕ
bpf_ld_w_abs = 0x20

abbrev pub bpf_jmp_jeq_k : ℕ
bpf_jmp_jeq_k = 0x15

abbrev pub bpf_jmp_jset_k : ℕ
bpf_jmp_jset_k = 0x45

abbrev pub bpf_alu_and_k : ℕ
bpf_alu_and_k = 0x54

abbrev pub bpf_jmp_jge_k : ℕ
bpf_jmp_jge_k = 0x35

abbrev pub bpf_ret_k : ℕ
bpf_ret_k = 0x06

-- `struct seccomp_data`: the syscall number and the architecture, both u32, and the arguments, u64.
-- The instruction pointer is left at zero.
pub record SeccompData : Type 0 where
  pub nr : ℕ
  pub arch : ℕ
  pub arg0 : ℕ
  pub arg1 : ℕ
  pub arg2 : ℕ
  pub arg3 : ℕ
  pub arg4 : ℕ
  pub arg5 : ℕ

abbrev pub low_word : ℕ → ℕ
low_word a = a % 4294967296

abbrev pub high_word : ℕ → ℕ
high_word a = a / 4294967296

-- The 64 bytes as sixteen little-endian words.
abbrev words : SeccompData → List ℕ
words d =
    low_word d.nr
    ∷ low_word d.arch
    ∷ 0
    ∷ 0
    ∷ low_word d.arg0
    ∷ high_word d.arg0
    ∷ low_word d.arg1
    ∷ high_word d.arg1
    ∷ low_word d.arg2
    ∷ high_word d.arg2
    ∷ low_word d.arg3
    ∷ high_word d.arg3
    ∷ low_word d.arg4
    ∷ high_word d.arg4
    ∷ low_word d.arg5
    ∷ high_word d.arg5
    ∷ []

-- A load at a byte offset; every offset that the filter uses is a multiple of four.
load : SeccompData → ℕ → Option ℕ
load d offset = if offset % 4 == 0 then get_elem? (words d) (offset / 4) else none

-- What one instruction does: return a value, go on with an accumulator after skipping some
-- instructions, or fault (a load out of range, an unknown opcode).
pub data Next : Type 0 where
  ret : ℕ → Next
  go : ℕ → ℕ → Next
  fault : Next

abbrev loaded : Option ℕ → Next
loaded none = fault
loaded (some w) = go w 0

abbrev branch : SockFilter → Bool → ℕ
branch i taken = if taken then i.jt else i.jf

pub step : SockFilter → SeccompData → ℕ → Next
unfolding load
step i d acc =
    if i.code == bpf_ld_w_abs
    then loaded (load d i.k)
    else if i.code == bpf_alu_and_k
    then go (bit_and acc i.k) 0
    else if i.code == bpf_jmp_jeq_k
    then go acc (branch i (acc == i.k))
    else if i.code == bpf_jmp_jset_k
    then go acc (branch i (not (bit_and acc i.k == 0)))
    else if i.code == bpf_jmp_jge_k
    then go acc (branch i (leb i.k acc))
    else if i.code == bpf_ret_k
    then ret i.k
    else fault

-- The loop of `evaluate`, from `skip` instructions further on. Running off the end is `none`.
unfoldable pub eval : SeccompData → List SockFilter → ℕ → ℕ → Option ℕ
unfolding step
eval d [] skip acc = none
eval d (i ∷ rest) (suc skip) acc = eval d rest skip acc
eval d (i ∷ rest) zero acc = elim (step i d acc) [
  | ret k ↦ some k
  | go acc' skip ↦ eval d rest skip acc'
  | fault ↦ none
]

-- The whole program, from a zero accumulator.
unfoldable pub evaluate : SeccompData → List SockFilter → Option ℕ
unfolding eval
evaluate d program = eval d program 0 0

-- A jump over a block lands behind it.
pub eval-length_append :
    (d : SeccompData) (body rest : List SockFilter) (acc : ℕ)
    → eval d (body ++ rest) (length body) acc ≡ eval d rest 0 acc
unfolding eval
eval-length_append d [] rest acc = refl
eval-length_append d (i ∷ body) rest acc = eval-length_append d body rest acc
