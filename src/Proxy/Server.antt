-- ===== src/Proxy/Server.antt =====
-- internal/proxy/server.go: the routes and the settings of the server; its run is the child Running.
-- The ServeMux of net/http is a parameter. Durations are in nanoseconds, as in Go.
pub mod Laws
pub mod Running
use k8s_ai_operator.Base.{ℕ, ◌*◌, ℤ, pos, Text, lit, List, [], ◌∷◌, ◌==◌, int_eq, if◌then◌else◌}
use k8s_ai_operator.Proxy.Http.{
  HttpRequest, HttpResponse, plain, Reply, replied, Handler, Scene, Outside,
}
use k8s_ai_operator.Proxy.Invoke.{handle_invoke}
use k8s_ai_operator.Proxy.Render.{handle_render}

-- The settings that NewServer reads, the handler aside.
pub record ServerConfig : Type 0 where
  pub listen_addr : Text
  pub read_timeout : ℤ
  pub write_timeout : ℤ

-- The fields of the http.Server that NewServer sets, the handler aside.
pub record HttpServer : Type 0 where
  pub addr : Text
  pub read_timeout : ℤ
  pub write_timeout : ℤ

-- time.Second
abbrev pub second : ℕ
second = 1000000000

-- A timeout of zero means the default.
unfoldable pub or_default : ℤ → ℤ → ℤ
or_default given default = if given == pos 0 then default else given

unfoldable pub new_server : ServerConfig → HttpServer
unfolding or_default
new_server cfg = record {
  addr = cfg.listen_addr;
  read_timeout = or_default cfg.read_timeout (pos (10 * second));
  write_timeout = or_default cfg.write_timeout (pos (120 * second));
}

-- The functions that the routes lead to.
pub data Route : Type 0 where
  healthz invoke_route render_route : Route

unfoldable pub routes : List (Text × Route)
routes =
    (lit "/healthz", healthz) ∷ (lit "/invoke/", invoke_route) ∷ (lit "/render/", render_route) ∷ []

-- The mux leads a request to the function of a pattern, or answers it itself: with a redirection to
-- the cleaned path, or with 404.
pub data Dispatch : Type 0 where
  chosen : Route → Dispatch
  answered : HttpResponse → Dispatch

abbrev pub Mux : Type 0
Mux = List (Text × Route) → HttpRequest → Dispatch

unfoldable pub handle_healthz : HttpRequest → HttpResponse
handle_healthz r = record { status = 200; headers = []; body = plain (lit "ok") }

module _ {Float Bucket Remote Tmpl : Type 0} (o : Outside Float Bucket Remote Tmpl)
    (mux : Mux) where
  -- The handler of the http.Server.
  unfoldable pub serve :
      HttpRequest → Scene Float → Handler Float Bucket Remote → Reply × Handler Float Bucket Remote
  serve r scene h = elim (mux routes r) [
    | chosen healthz ↦ (replied (handle_healthz r), h)
    | chosen invoke_route ↦ handle_invoke o r scene h
    | chosen render_route ↦ handle_render o r scene h
    | answered response ↦ (replied response, h)
  ]
