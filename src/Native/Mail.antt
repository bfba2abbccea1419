-- ===== src/Native/Mail.antt =====
-- The mail of `tell_job_status` of ci-lib-native/src/notifier.rs. The SMTP client and the reading of
-- addresses are parameters.
use build_o_tron.Base.{String, Bool, true, false, Option, none, some, Outcome, ok, err, panic}
use build_o_tron.Native.Notifier.{and_then}

-- A mail, and to whom its envelope is addressed.
pub record Message : Type 0 where
  pub sender : String
  pub recipient : String
  pub subject : String
  pub body : String

-- What the client does: each step may fail with a text. `connect` waits five seconds at most.
pub record Smtp : Type 0 where
  pub tls_parameters : String → Outcome (Unit {0})
  pub connect : String → Outcome (Unit {0})
  pub starttls : String → Outcome (Unit {0})
  pub auth : String → String → Outcome Bool
  pub parse_address : String → Option String
  pub send : Message → Outcome (Unit {0})

-- `.unwrap()`
abbrev unwrapped : {A : Type 0} → Outcome A → Outcome A
unwrapped (ok a) = ok a
unwrapped (err e) = panic e
unwrapped (panic e) = panic e

abbrev parsed : Option String → Outcome String
parsed none = panic "called `Result::unwrap()` on an `Err` value"
parsed (some a) = ok a

-- `assert!(resp.is_positive())`
abbrev asserted : Bool → Outcome (Unit {0})
asserted true = ok tt
asserted false = panic "assertion failed: resp.is_positive()"

-- The arm `NotifierConfig::Email`: only the last step's failure is an error of the caller's.
unfoldable pub send_mail :
    Smtp → String → String → String → String → String → String → Outcome (Unit {0})
send_mail s user password server from to subject =
    and_then (unwrapped (s.tls_parameters server)) λ _. and_then (unwrapped (s.connect server)) λ _.
      and_then (unwrapped (s.starttls "ci.butactuallyin.space")) λ _.
        and_then (unwrapped (s.auth user password)) λ positive. and_then (asserted positive) λ _.
          and_then (parsed (s.parse_address from)) λ sender.
            and_then (parsed (s.parse_address to)) λ recipient.
              s.send (record {
                sender = sender;
                recipient = recipient;
                subject = subject;
                body = subject;
              })
