-- ===== src/Adapter/Tests.antt =====
-- The theorems on adapter/adapter.go at work.
use yggdrasil_sdk_go.Base.{
  true, none, some, [], ◌∷◌, ◌++◌, ◌≡◌, refl, count_of, arith, if◌then◌else◌,
}
use yggdrasil_sdk_go.Base.Int.{pos}
use yggdrasil_sdk_go.Base.Texts.{Text, codes, text_eq}
use yggdrasil_sdk_go.Rpc.{message, done, error_text}
use yggdrasil_sdk_go.Adapter.{Config, Handler, answered, Transport, Adapter, run, escape_quotes}
use yggdrasil_sdk_go.Adapter.Envelope.{read_string, envelope_string, error_envelope_broken}
use yggdrasil_sdk_go.Adapter.Lifecycle.{is_consumed, is_closed, run_balanced}

abbrev pub as_is : Text → Text
as_is t = t

abbrev echo : Handler
echo m = done (answered m.body m.content_type)

abbrev pub config : Config
config = record {
  provider = codes "github";
  integration_type = codes "scm";
  version = codes "1";
  default_timeout = pos 5;
  concurrency = pos 4;
}

-- It takes every endpoint.
abbrev pub open_transport : Transport
open_transport = record { consume = λ c. none }

-- It takes only the endpoint `echo`.
abbrev pub echo_transport : Transport
echo_transport = record {
  consume = λ c. if text_eq c.endpoint (codes "echo") then none else some (message (codes "busy"));
}

abbrev pub ready : Transport → Adapter
ready t = record {
  config = config;
  handlers = (codes "echo", echo) ∷ (codes "copy", echo) ∷ [];
  wiring = record { transport = some t; after_run = true };
  before_run = none;
}

-- Here the second `Consume` fails.
run_balanced_example :
    count_of (is_consumed (codes "echo")) (run as_is (ready echo_transport)).1
    ≡ count_of (is_closed (codes "echo")) (run as_is (ready echo_transport)).1
run_balanced_example = run_balanced as_is (ready echo_transport) (codes "echo")

-- What `%q` makes of a quote inside a quoted name.
error_envelope_broken_example :
    read_string (envelope_string (message (codes "no \\\" here")))
    ≡ some (codes "no " ++ (b'\\' ∷ []), escape_quotes (codes " here") ++ codes "\"}")
unfolding error_text
error_envelope_broken_example =
    error_envelope_broken (message (codes "no \\\" here")) (codes "no ") (codes " here") refl
      (ground arith)
