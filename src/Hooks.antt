-- ===== src/Hooks.antt =====
-- The instrumentation hooks of funtrace.cpp, and the flags of funtrace_flags.h. Each acts on the
-- calling thread's buffer; the times are what the time stamp counter returns at each call of
-- `trace`.
pub mod Decode
pub mod Events
mod Tests
use funtrace.Prelude.{ℕ, ◌*◌, ◌^◌, Bool, true, false, if◌then◌else◌, bit_or, List, [], ◌∷◌, ◌++◌}
use funtrace.TraceBuffer.Layout.{Memory}
use funtrace.TraceBuffer.{TraceData, trace}

abbrev pub funtrace_return_bit : ℕ
funtrace_return_bit = 63

abbrev pub funtrace_return_with_caller_address_bit : ℕ
funtrace_return_with_caller_address_bit = 62

abbrev pub funtrace_call_returning_upon_throw_bit : ℕ
funtrace_call_returning_upon_throw_bit = 61

abbrev pub funtrace_catch_mask : ℕ
funtrace_catch_mask = bit_or (2 ^ funtrace_return_bit) (2 ^ funtrace_return_with_caller_address_bit)

abbrev pub return_flag : ℕ
return_flag = 2 ^ funtrace_return_bit

-- `CALL_FLAGS`, for gcc and for clang
abbrev pub call_flags : Bool → ℕ
call_flags gcc = if gcc then 2 ^ funtrace_call_returning_upon_throw_bit else 0

abbrev pub Buffer : Type 0
Buffer = Memory × TraceData

-- `__cyg_profile_func_enter` and `__cyg_profile_func_exit`
unfoldable pub cyg_profile_func_enter : Bool → ℕ → ℕ → Buffer → Buffer
cyg_profile_func_enter gcc func time s = trace func (call_flags gcc) time s

unfoldable pub cyg_profile_func_exit : ℕ → ℕ → Buffer → Buffer
cyg_profile_func_exit func time s = trace func return_flag time s

-- `__cxa_begin_catch`: `hook` is its own address, and `located` tells whether `dlsym` found the
-- real one.
unfoldable pub cxa_begin_catch : Bool → ℕ → ℕ → ℕ → ℕ → ℕ → Buffer → Buffer
cxa_begin_catch located caller hook time₁ time₂ time₃ s =
    let s' = trace hook 0 time₂ (trace caller funtrace_catch_mask time₁ s) in
    if located then trace hook return_flag time₃ s' else s'

-- `__cxa_end_catch`
unfoldable pub cxa_end_catch : Bool → ℕ → ℕ → ℕ → Buffer → Buffer
cxa_end_catch located hook time₁ time₂ s =
    let s' = trace hook 0 time₁ s in if located then trace hook return_flag time₂ s' else s'

-- `__cxa_throw`, up to the call of the real one, which does not return.
unfoldable pub cxa_throw : Bool → ℕ → ℕ → ℕ → Buffer → Buffer
cxa_throw located hook time₁ time₂ s =
    let s' = trace hook 0 time₁ s in if located then trace hook return_flag time₂ s' else s'
