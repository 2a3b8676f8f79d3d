-- ===== src/Http/TransportTests.antt =====
-- The registration and shutdown of rpc/http/http.go at work.
use yggdrasil_sdk_go.Base.{Bool, true, none, some, List, [], ◌∷◌, ◌≡◌, refl, inr}
use yggdrasil_sdk_go.Base.Int.{pos}
use yggdrasil_sdk_go.Base.Texts.{Text, codes}
use yggdrasil_sdk_go.Rpc.{Handler, ConsumerConfig, done}
use yggdrasil_sdk_go.Http.Serve.{http_error, serve_http}
use yggdrasil_sdk_go.Http.Client.{default_path_prefix}
use yggdrasil_sdk_go.Http.Tests.{codec, all_written}
use yggdrasil_sdk_go.Http.Transport.{Mounted, Transport, new, consume, mount_of, shut, close}
use yggdrasil_sdk_go.Http.Transport.Steps.{consuming, applies}
use yggdrasil_sdk_go.Http.Transport.Shutdown.{close-serve_http}

abbrev takes_all : List Text → Text → Bool
takes_all patterns pattern = true

abbrev quiet : Handler
quiet m = done none

abbrev execute : ConsumerConfig
execute = record {
  endpoint = codes "execute";
  handler = some quiet;
  timeout = pos 0;
  concurrency = pos 0;
}

abbrev mounted : Mounted
mounted = mount_of default_path_prefix execute quiet

close-serve_http_example :
    (serve_http codec all_written true (inr (codes "J")) (shut mounted).sub
      ≡ http_error 503 (codes "subscription closed") ∷ [])
    × (close (close (applies takes_all (consuming execute ∷ []) (new true [])))
        ≡ close (applies takes_all (consuming execute ∷ []) (new true [])))
unfolding applies consume new close
close-serve_http_example =
    close-serve_http takes_all true [] (consuming execute ∷ []) 0 (shut mounted) codec all_written
      true (inr (codes "J")) refl refl

abbrev closed_transport : Transport
unfolding new close
closed_transport = close (new true [])
