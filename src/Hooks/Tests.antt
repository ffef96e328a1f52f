-- ===== src/Hooks/Tests.antt =====
-- The hooks at a buffer of two entries.
use funtrace.Prelude.{◌≡◌, true, false, [], ◌∷◌, ◌++◌, arith, drop, refl}
use funtrace.TraceBuffer.Demo.{demo, demo_memory, demo-IsAllocated}
use funtrace.Hooks.Decode.{call, call_returning_upon_throw, returns, catches}
use funtrace.Hooks.Events.{events, events-func_enter-func_exit, events-cxa_begin_catch}
use funtrace.Hooks.{cyg_profile_func_enter, cyg_profile_func_exit, cxa_begin_catch}

events-func_enter-func_exit_example :
    events (cyg_profile_func_exit 5 31 (cyg_profile_func_enter true 5 30 (demo_memory, demo)))
    ≡ drop 2 (
        events (demo_memory, demo)
        ++ (record { kind = call_returning_upon_throw; address = 5; time = 30 }
            ∷ record { kind = returns; address = 5; time = 31 }
            ∷ []))
events-func_enter-func_exit_example =
    events-func_enter-func_exit demo_memory demo-IsAllocated refl true 5 30 31 (omega arith)

events-cxa_begin_catch_example :
    events (cxa_begin_catch false 5 6 30 31 32 (demo_memory, demo))
    ≡ drop 2 (
        events (demo_memory, demo)
        ++ (record { kind = catches; address = 5; time = 30 }
            ∷ record { kind = call; address = 6; time = 31 }
            ∷ []))
events-cxa_begin_catch_example =
    events-cxa_begin_catch demo_memory demo-IsAllocated refl false 5 6 30 31 32 (omega arith)
      (omega arith)
