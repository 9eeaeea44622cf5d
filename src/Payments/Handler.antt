-- ===== src/Payments/Handler.antt =====
-- internal/payments/handler.go and the signature test of provider.go. HMAC-SHA256 in hexadecimal
-- is the parameter `hmac`, of the secret and the payload's text; the payload's decoding comes with it.
use Prim.Native.String.{◌++◌ as join}
use go_wallet_ledger.Base.{String, Option, none, some, Bool, ◌==◌, if◌then◌else◌}
use go_wallet_ledger.Base.Int.{ℤ}
use go_wallet_ledger.Models.Errors.{Error}
use go_wallet_ledger.Models.Auth.{JwtClaims}
use go_wallet_ledger.Models.Payments.{Payment, PaymentStatus, WebhookPayload}
use go_wallet_ledger.Store.{Engine, World, Result, ok, err}
use go_wallet_ledger.Http.{Response, failure, reply, no_body, message, error_body, payment_json}
use go_wallet_ledger.Wallets.Handler.{answer}
use go_wallet_ledger.Payments.{create_payment, process_webhook}

pub record CreatePaymentRequest : Type 0 where
  pub wallet_id : String
  pub amount : ℤ
  pub currency : String

-- `HandleCreatePayment`, of the claims, the decoded body and the simulator's draw.
unfoldable pub handle_create_payment :
    Engine
    → String × Bool
    → Option JwtClaims
    → Option CreatePaymentRequest
    → World
    → Response × World
handle_create_payment e draw none body w = (failure 401 "unauthorized", w)
handle_create_payment e draw (some claims) none w = (failure 400 "invalid request body", w)
handle_create_payment e draw (some claims) (some req) w =
    answer (λ _. failure 500 "internal server error") (λ payment. reply 201 (payment_json payment))
      (create_payment e draw req.wallet_id req.amount req.currency w)

-- The body of a webhook: its bytes as a text, and what they decode to.
pub record RawPayload : Type 0 where
  pub text : String
  pub decoded : Option WebhookPayload

module _ (hmac : String → String → String) where
  -- `VerifyWebhookSignature`
  unfoldable pub verify_webhook_signature : String → String → String → Bool
  verify_webhook_signature secret payload signature = hmac secret payload == signature

  -- What the error of `ProcessWebhook` is answered with.
  abbrev pub webhook_failure : Error → Response
  webhook_failure Error.duplicate_webhook = record { status = 200; body = no_body }
  webhook_failure (Error.invalid_state_transition s n) = record {
    status = 400;
    body = error_body (Error.invalid_state_transition s n);
  }
  webhook_failure Error.payment_not_found = record {
    status = 400;
    body = error_body Error.payment_not_found;
  }
  webhook_failure _ = failure 500 "internal server error"

  -- `HandleWebhook`, of the secret, the header's signature and the body, `none` where reading it
  -- fails.
  unfoldable pub handle_webhook :
      Engine → String → String → Option RawPayload → World → Response × World
  unfolding verify_webhook_signature
  handle_webhook e secret signature none w =
      if signature == ""
      then (failure 401 "missing signature", w)
      else (failure 400 "failed to read body", w)
  handle_webhook e secret signature (some payload) w =
      if signature == ""
      then (failure 401 "missing signature", w)
      else if verify_webhook_signature secret payload.text signature
      then answer webhook_failure (λ _. record { status = 200; body = no_body })
          (process_webhook e "simulator" payload.decoded w)
      else (failure 401 "invalid signature", w)

-- The payload that `HandleDemoFund` makes up for its payment.
abbrev pub demo_event : Payment → WebhookPayload
demo_event payment = record {
  event_id = join "demo-event-" payment.id;
  event_type = "payment.succeeded";
  reference_id = payment.provider_reference;
  status = PaymentStatus.succeeded;
}

abbrev pub demo_webhook : Engine → Result Payment × World → Response × World
demo_webhook e (err x, w) = (failure 500 "internal server error", w)
demo_webhook e (ok payment, w) =
    answer (λ x. record { status = 500; body = error_body x })
      (λ _. record { status = 200; body = message "{\"status\": \"success\"}" })
      (process_webhook e "simulator" (some (demo_event payment)) w)

-- `HandleDemoFund`
unfoldable pub handle_demo_fund :
    Engine → String × Bool → Option CreatePaymentRequest → World → Response × World
unfolding create_payment process_webhook
handle_demo_fund e draw none w = (failure 400 "invalid request body", w)
handle_demo_fund e draw (some req) w =
    demo_webhook e (create_payment e draw req.wallet_id req.amount req.currency w)
