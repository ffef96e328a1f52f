-- ===== src/Hooks/Events.antt =====
-- What a decoder reads of the events that the hooks record.
use mathlib.Core.List.{map-append}
use funtrace.Prelude.{
  ℕ, zero, suc, ◌^◌, ◌<◌, ◌≡◌, refl, ap, ap₂, ◌∙◌, Bool, true, false, if◌then◌else◌, List, [], ◌∷◌,
  ◌++◌, map, length, drop, bit_or,
}
use funtrace.TraceBuffer.Layout.{Memory}
use funtrace.TraceBuffer.Mask.{IsAllocated}
use funtrace.TraceBuffer.Refine.{IsEnabled, chronological}
use funtrace.TraceBuffer.Run.{Event, recorded, trace_all, chronological-trace_all}
use funtrace.TraceBuffer.{TraceData}
use funtrace.Hooks.Decode.{
  TraceEvent, call, call_returning_upon_throw, returns, catches, decode, decode_call,
  decode_call_returning, decode_return, decode_catch,
}
use funtrace.Hooks.{Buffer, cyg_profile_func_enter, cyg_profile_func_exit, cxa_begin_catch}

-- The events of a buffer from the oldest to the newest.
abbrev pub events : Buffer → List TraceEvent
events s = map decode (chronological s)

map-drop {ℓ κ} :
    {A : Type ℓ} {B : Type κ} (f : A → B) (n : ℕ) (xs : List A)
    → map f (drop n xs) ≡ drop n (map f xs)
map-drop f zero xs = refl
map-drop f (suc n) [] = refl
map-drop f (suc n) (x ∷ xs) = map-drop f n xs

ap₃ :
    {A B : Type 0} (f : A → A → A → B) {a a' b b' c c' : A}
    → a ≡ a'
    → b ≡ b'
    → c ≡ c'
    → f a b c ≡ f a' b' c'
ap₃ f p q r = λ i. f (p i) (q i) (r i)

module _ (mem : Memory) {t : TraceData} (v : IsAllocated t) (on : IsEnabled t) where
  events-trace_all :
      (es : List Event)
      → events (trace_all es (mem, t))
        ≡ drop (length es) (events (mem, t) ++ map decode (map recorded es))
  events-trace_all es =
      ap (map decode) (chronological-trace_all es mem v on)
      ∙ map-drop decode (length es) (chronological (mem, t) ++ map recorded es)
      ∙ ap (drop (length es)) (map-append decode (chronological (mem, t)) (map recorded es))

  -- On a well-formed and enabled buffer, a call of an instrumented function at a 61-bit address that
  -- returns adds, as a decoder reads them, a call event and a return event of that address at the
  -- times of the call and the return; the call is marked as returning upon a throw under gcc alone.
  pub events-func_enter-func_exit :
      (gcc : Bool) (func time₁ time₂ : ℕ)
      → func < 2 ^ 61
      → events (cyg_profile_func_exit func time₂ (cyg_profile_func_enter gcc func time₁ (mem, t)))
        ≡ drop 2 (
            events (mem, t)
            ++ (record {
              kind = if gcc then call_returning_upon_throw else call;
              address = func;
              time = time₁;
            }
                ∷ record { kind = returns; address = func; time = time₂ }
                ∷ []))
  unfolding cyg_profile_func_exit cyg_profile_func_enter trace_all
  events-func_enter-func_exit true func time₁ time₂ h =
      events-trace_all (
        record { ptr = func; flags = 2 ^ 61; time = time₁ }
        ∷ record { ptr = func; flags = 2 ^ 63; time = time₂ }
        ∷ [])
      ∙ ap₂ (λ a b. drop 2 (events (mem, t) ++ a ∷ b ∷ [])) (decode_call_returning func time₁ h)
          (decode_return func time₂ h)
  events-func_enter-func_exit false func time₁ time₂ h =
      events-trace_all (
        record { ptr = func; flags = 0; time = time₁ }
        ∷ record { ptr = func; flags = 2 ^ 63; time = time₂ }
        ∷ [])
      ∙ ap₂ (λ a b. drop 2 (events (mem, t) ++ a ∷ b ∷ [])) (decode_call func time₁ h)
          (decode_return func time₂ h)

  -- On a well-formed and enabled buffer, catching an exception adds, as a decoder reads them, a
  -- catch event of the catching function, a call event of __cxa_begin_catch, and its return event
  -- if the real one was found, at 61-bit addresses and in the order of the calls of trace.
  pub events-cxa_begin_catch :
      (located : Bool) (caller hook time₁ time₂ time₃ : ℕ)
      → caller < 2 ^ 61
      → hook < 2 ^ 61
      → events (cxa_begin_catch located caller hook time₁ time₂ time₃ (mem, t)) ≡ (
          let caught : TraceEvent = record { kind = catches; address = caller; time = time₁ } in
          let called : TraceEvent = record { kind = call; address = hook; time = time₂ } in
          let returned : TraceEvent = record { kind = returns; address = hook; time = time₃ } in
          if located
          then drop 3 (events (mem, t) ++ caught ∷ called ∷ returned ∷ [])
          else drop 2 (events (mem, t) ++ caught ∷ called ∷ []))
  unfolding cxa_begin_catch trace_all
  events-cxa_begin_catch true caller hook time₁ time₂ time₃ h k =
      events-trace_all (
        record { ptr = caller; flags = bit_or (2 ^ 63) (2 ^ 62); time = time₁ }
        ∷ record { ptr = hook; flags = 0; time = time₂ }
        ∷ record { ptr = hook; flags = 2 ^ 63; time = time₃ }
        ∷ [])
      ∙ ap₃ (λ a b c. drop 3 (events (mem, t) ++ a ∷ b ∷ c ∷ [])) (decode_catch caller time₁ h)
          (decode_call hook time₂ k) (decode_return hook time₃ k)
  events-cxa_begin_catch false caller hook time₁ time₂ time₃ h k =
      events-trace_all (
        record { ptr = caller; flags = bit_or (2 ^ 63) (2 ^ 62); time = time₁ }
        ∷ record { ptr = hook; flags = 0; time = time₂ }
        ∷ [])
      ∙ ap₂ (λ a b. drop 2 (events (mem, t) ++ a ∷ b ∷ [])) (decode_catch caller time₁ h)
          (decode_call hook time₂ k)
