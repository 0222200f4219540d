-- ===== src/Machine/Http.antt =====
-- `HTTPGet` and `WaitForHTTP` of `machine/machine.go`, with their options.
use rules_vmtest.Base.{
  ℕ, ◌≡◌, ◌⊎◌, Bool, true, ◌&&◌, ◌||◌, [], ◌∷◌, List, ℤ, pos, Text, is_empty, Result, ok, err,
  same_int,
}
use rules_vmtest.Strings.{contains}
use rules_vmtest.Machine.Guest.{Guest, HttpResponse}
use rules_vmtest.Machine.Retry.{
  RetryConfig, RetryOption, default_retry, with_retry_timeout, with_retry_interval,
}
use rules_vmtest.Machine.Exec.{Failure, timed_out, call_failed}
use rules_vmtest.Machine.Wait.{Outcome, Round, wait, test_attempt}

pub record HttpConfig : Type 0 where
  pub status_code : ℤ
  pub body_contains : Text

-- The interface `WaitForHTTPOption`: an `HTTPOption`, or a retry option behind `httpRetryOption`.
pub data WaitForHttpOption : Type 0 where
  http_option : (HttpConfig → HttpConfig) → WaitForHttpOption
  http_retry_option : RetryOption → WaitForHttpOption

abbrev pub http_status : ℤ → WaitForHttpOption
http_status code = http_option (λ c. record c { status_code = code })

abbrev pub http_body_contains : Text → WaitForHttpOption
http_body_contains sub = http_option (λ c. record c { body_contains = sub })

abbrev pub with_http_retry_timeout : ℕ → WaitForHttpOption
with_http_retry_timeout d = http_retry_option (with_retry_timeout d)

abbrev pub with_http_retry_interval : ℕ → WaitForHttpOption
with_http_retry_interval d = http_retry_option (with_retry_interval d)

abbrev apply_http : WaitForHttpOption → HttpConfig × RetryConfig → HttpConfig × RetryConfig
apply_http (http_option f) (hc, rc) = (f hc, rc)
apply_http (http_retry_option f) (hc, rc) = (hc, f rc)

abbrev apply_http_options :
    List WaitForHttpOption → HttpConfig × RetryConfig → HttpConfig × RetryConfig
apply_http_options [] c = c
apply_http_options (o ∷ opts) c = apply_http_options opts (apply_http o c)

-- The two configurations of `WaitForHTTP`: status 200 and the default pauses, with the options on top.
unfoldable pub http_configs : List WaitForHttpOption → HttpConfig × RetryConfig
http_configs opts =
    apply_http_options opts (record { status_code = pos 200; body_contains = [] }, default_retry)

abbrev accepts : HttpConfig → HttpResponse → Bool
accepts hc r =
    same_int r.status_code hc.status_code
    && (is_empty hc.body_contains || contains r.body hc.body_contains)

-- The response has the status that was asked for, and holds the text, if one was asked for.
pub record IsWanted (hc : HttpConfig) (r : HttpResponse) : Type 0 where
  pub status : r.status_code ≡ hc.status_code
  pub body : (hc.body_contains ≡ []) ⊎ (contains r.body hc.body_contains ≡ true)

module _ (G : Guest) where
  unfoldable pub http_get : Text → G.World → Result (Failure G.Error) HttpResponse × G.World
  http_get url w =
      let (reply, w') = G.http_get url w in
      (elim reply [ ok r ↦ ok r | err e ↦ err (call_failed url e) ], w')

  abbrev http_round : HttpConfig → Text → Round G (Unit {0}) HttpResponse
  http_round hc url w =
      let (reply, w') = G.http_get url w in (test_attempt (accepts hc) (λ r. r) reply, w')

  unfoldable pub wait_for_http :
      ℕ → Text → List WaitForHttpOption → G.World → Outcome G HttpResponse
  wait_for_http fuel url opts w =
      let (hc, rc) = http_configs opts in
      wait G fuel rc (λ _. timed_out url rc.timeout) tt (http_round hc url) w
