-- ===== src/Machine/Retry.antt =====
-- Retry options of `machine/machine.go`.
use rules_vmtest.Base.{ℕ, ◌*◌, ◌^◌, [], ◌∷◌, List}

pub record RetryConfig : Type 0 where
  pub timeout : ℕ
  pub interval : ℕ

abbrev pub second : ℕ
second = 10 ^ 9

abbrev pub default_retry_timeout : ℕ
default_retry_timeout = 60 * second

abbrev pub default_retry_interval : ℕ
default_retry_interval = 1 * second

abbrev pub RetryOption : Type 0
RetryOption = RetryConfig → RetryConfig

abbrev pub with_retry_timeout : ℕ → RetryOption
with_retry_timeout d c = record c { timeout = d }

abbrev pub with_retry_interval : ℕ → RetryOption
with_retry_interval d c = record c { interval = d }

abbrev pub default_retry : RetryConfig
default_retry = record { timeout = default_retry_timeout; interval = default_retry_interval }

-- Options are applied in order: `for _, o := range opts { o(&rc) }`.
abbrev pub apply_options : List RetryOption → RetryConfig → RetryConfig
apply_options [] rc = rc
apply_options (o ∷ opts) rc = apply_options opts (o rc)

unfoldable pub apply_retry_opts : List RetryOption → RetryConfig
apply_retry_opts opts = apply_options opts default_retry
