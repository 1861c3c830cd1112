-- ===== src/Tracee.antt =====
-- The state of a tracee and its cached registers, for x86_64: src/tracee/tracee.h,
-- src/tracee/reg.h, src/tracee/reg.c and src/tracee/abi.h.
pub mod Registers
use proot.Prelude.{
  ℕ, ◌-◌, ◌%◌, ◌^◌, Bool, true, false, not, ◌&&◌, ◌||◌, Option, List, ◌==◌, if◌then◌else◌,
}

pub data Reg : Type 0 where
  sysarg_num : Reg
  sysarg_1 : Reg
  sysarg_2 : Reg
  sysarg_3 : Reg
  sysarg_4 : Reg
  sysarg_5 : Reg
  sysarg_6 : Reg
  sysarg_result : Reg
  stack_pointer : Reg
  instr_pointer : Reg
  rtld_fini : Reg
  state_flags : Reg
  userarg_1 : Reg

pub data RegVersion : Type 0 where
  current : RegVersion
  original : RegVersion
  modified : RegVersion
  original_seccomp_rewrite : RegVersion

pub data Abi : Type 0 where
  abi_default : Abi
  abi_2 : Abi
  abi_3 : Abi

-- A register bank gives the word of each register of `struct user_regs_struct`, by its place there.
abbrev pub RegisterBank : Type 0
RegisterBank = ℕ → ℕ

pub record ChainedSyscall : Type 0 where
  pub sysnum : ℕ
  pub arg_1 : ℕ
  pub arg_2 : ℕ
  pub arg_3 : ℕ
  pub arg_4 : ℕ
  pub arg_5 : ℕ
  pub arg_6 : ℕ

pub data SysnumWorkaround : Type 0 where
  workaround_inactive : SysnumWorkaround
  workaround_process_faulty_call : SysnumWorkaround
  workaround_process_replaced_call : SysnumWorkaround

pub record SyscallChain : Type 0 where
  pub syscalls : Option (List ChainedSyscall)
  pub force_final_result : Bool
  pub final_result : ℕ
  pub sysnum_workaround_state : SysnumWorkaround

pub record Heap : Type 0 where
  pub base : ℕ
  pub size : ℕ
  pub disabled : Bool

pub data Restart : Type 0 where
  ptrace_cont : Restart
  ptrace_syscall : Restart

pub record Mapping : Type 0 where
  pub addr : ℕ
  pub map_length : ℕ

pub record Tracee : Type 0 where
  pub current_regs : RegisterBank
  pub original_regs : RegisterBank
  pub modified_regs : RegisterBank
  pub seccomp_regs : RegisterBank
  pub regs_were_changed : Bool
  pub restore_original_regs : Bool
  pub restart_how : Restart
  pub chain : SyscallChain
  pub heap : Heap
  pub mappings : List Mapping

abbrev pub word_modulus : ℕ
word_modulus = 2 ^ 64

-- The registers of `struct user_regs_struct`, by their place.
abbrev pub rbp : ℕ
rbp = 4

abbrev pub rbx : ℕ
rbx = 5

abbrev pub r10 : ℕ
r10 = 7

abbrev pub r9 : ℕ
r9 = 8

abbrev pub r8 : ℕ
r8 = 9

abbrev pub rax : ℕ
rax = 10

abbrev pub rcx : ℕ
rcx = 11

abbrev pub rdx : ℕ
rdx = 12

abbrev pub rsi : ℕ
rsi = 13

abbrev pub rdi : ℕ
rdi = 14

abbrev pub orig_rax : ℕ
orig_rax = 15

abbrev pub rip : ℕ
rip = 16

abbrev pub cs : ℕ
cs = 17

abbrev pub eflags : ℕ
eflags = 18

abbrev pub rsp : ℕ
rsp = 19

abbrev pub ds : ℕ
ds = 23

abbrev pub reg_offset : Reg → ℕ
reg_offset sysarg_num = orig_rax
reg_offset sysarg_1 = rdi
reg_offset sysarg_2 = rsi
reg_offset sysarg_3 = rdx
reg_offset sysarg_4 = r10
reg_offset sysarg_5 = r8
reg_offset sysarg_6 = r9
reg_offset sysarg_result = rax
reg_offset stack_pointer = rsp
reg_offset instr_pointer = rip
reg_offset rtld_fini = rdx
reg_offset state_flags = eflags
reg_offset userarg_1 = rdi

abbrev pub reg_offset_x86 : Reg → ℕ
reg_offset_x86 sysarg_num = orig_rax
reg_offset_x86 sysarg_1 = rbx
reg_offset_x86 sysarg_2 = rcx
reg_offset_x86 sysarg_3 = rdx
reg_offset_x86 sysarg_4 = rsi
reg_offset_x86 sysarg_5 = rdi
reg_offset_x86 sysarg_6 = rbp
reg_offset_x86 sysarg_result = rax
reg_offset_x86 stack_pointer = rsp
reg_offset_x86 instr_pointer = rip
reg_offset_x86 rtld_fini = rdx
reg_offset_x86 state_flags = eflags
reg_offset_x86 userarg_1 = rax

-- The macro `REG`: where the register of a bank is.
unfoldable pub place : RegisterBank → Reg → ℕ
place bank r = if bank cs == 0x23 then reg_offset_x86 r else reg_offset r

abbrev pub get_bank : Tracee → RegVersion → RegisterBank
get_bank tracee current = tracee.current_regs
get_bank tracee original = tracee.original_regs
get_bank tracee modified = tracee.modified_regs
get_bank tracee original_seccomp_rewrite = tracee.seccomp_regs

unfoldable pub get_abi : Tracee → Abi
get_abi tracee =
    if tracee.original_regs cs == 0x23
    then abi_2
    else if (tracee.original_regs cs == 0x33) && (tracee.original_regs ds == 0x2b)
    then abi_3
    else abi_default

unfoldable pub is_32on64_mode : Tracee → Bool
is_32on64_mode tracee =
    (tracee.current_regs cs == 0x23)
    || ((tracee.current_regs cs == 0x33) && (tracee.current_regs ds == 0x2b))

unfoldable pub peek_reg : Tracee → RegVersion → Reg → ℕ
peek_reg tracee version r =
    let result = get_bank tracee version (place (get_bank tracee version) r) in
    if is_32on64_mode tracee then result % 2 ^ 32 else result

-- One word of a bank is written.
unfoldable pub write : RegisterBank → ℕ → ℕ → RegisterBank
write bank at value i = if i == at then value else bank i

unfoldable pub poke_reg : Tracee → Reg → ℕ → Tracee
poke_reg tracee r value =
    let same = peek_reg tracee current r == value in
    record tracee {
      current_regs =
          if same
          then tracee.current_regs
          else write tracee.current_regs (place tracee.current_regs r) value;
      regs_were_changed = if same then tracee.regs_were_changed else true;
    }

-- `save_current_regs` for the versions that the syscall stages save.
unfoldable pub save_current_regs : Tracee → RegVersion → Tracee
save_current_regs tracee current = tracee
save_current_regs tracee original = record tracee {
  regs_were_changed = false;
  original_regs = tracee.current_regs;
}
save_current_regs tracee modified = record tracee { modified_regs = tracee.current_regs }
save_current_regs tracee original_seccomp_rewrite = record tracee {
  seccomp_regs = tracee.current_regs;
}
