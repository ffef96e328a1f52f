-- ===== src/Config/Tests.antt =====
use funtrace.Prelude.{◌≡◌, refl, [], ◌∷◌, none, some, pos, negsuc}
use funtrace.Config.{atoi, env_int, default_log_buf_size}

atoi_number : atoi (32 ∷ b'1' ∷ b'2' ∷ b'x' ∷ []) ≡ pos 12
unfolding atoi
atoi_number = refl

atoi_negative : atoi (b'-' ∷ b'3' ∷ []) ≡ negsuc 2
unfolding atoi
atoi_negative = refl

default_size : default_log_buf_size (λ _. none) ≡ pos 20
unfolding default_log_buf_size env_int
default_size = refl

no_trace : default_log_buf_size (λ _. some (b'0' ∷ [])) ≡ pos 0
unfolding default_log_buf_size env_int
no_trace = refl
