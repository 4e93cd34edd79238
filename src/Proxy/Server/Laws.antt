-- ===== src/Proxy/Server/Laws.antt =====
-- Which requests reach which function of the proxy, and what they name.
use k8s_ai_operator.Base.{
  Text, lit, ◌≡◌, refl, ◌≢◌, ◌⊎◌, inl, inr, some, List, [], ◌∷◌, ◌++◌, Bool, true, false, Any, ◌==◌,
  text_eq, nat_eq, if◌then◌else◌, arith, cut_prefix_append, sym, ◌∙◌, ap,
}
use mathlib.Core.List.{append-nil}
use k8s_ai_operator.Api.Meta.{ObjectKey}
use k8s_ai_operator.Proxy.Path.{parse_path_segments, trim_prefix}
use k8s_ai_operator.Proxy.Path.Laws.{Lacks, parse_path_segments_iff}
use k8s_ai_operator.Proxy.Http.{HttpRequest, HttpResponse, Handler, Scene, Outside}
use k8s_ai_operator.Proxy.Invoke.Laws.Gate.{IsCall, handle_invoke-link}
use k8s_ai_operator.Proxy.Render.Laws.Gate.{IsRenderCall, handle_render-IsRender}
use k8s_ai_operator.Proxy.Server.{
  Route, healthz, invoke_route, render_route, routes, Mux, Dispatch, chosen, answered, serve,
}

Dispatch-cases :
    (d : Dispatch)
    → (d ≡ chosen healthz)
      ⊎ (d ≡ chosen invoke_route)
      ⊎ (d ≡ chosen render_route)
      ⊎ ((response : HttpResponse) × (d ≡ answered response))
Dispatch-cases (chosen healthz) = inl refl
Dispatch-cases (chosen invoke_route) = inr (inl refl)
Dispatch-cases (chosen render_route) = inr (inr (inl refl))
Dispatch-cases (answered response) = inr (inr (inr (response, refl)))

abbrev pub ends_in_slash : Text → Bool
ends_in_slash [] = false
ends_in_slash (c ∷ s) = if s == [] then c == b'/' else ends_in_slash s

-- A pattern that ends in a slash fits the paths that begin with it, any other only itself.
abbrev pub Fits : Text → Text → Type 0
Fits pattern_text path =
    (path ≡ pattern_text)
    ⊎ ((ends_in_slash pattern_text ≡ true) × (rest : Text) × (path ≡ pattern_text ++ rest))

-- The documented behaviour of ServeMux that the proxy relies on: it leads a request only to the
-- function of a registered pattern that fits the request's path.
abbrev pub IsMux : Mux → Type 0
IsMux mux =
    (table : List (Text × Route)) (r : HttpRequest) (route : Route)
    → mux table r ≡ chosen route
    → Any (λ row. (row.1 ≡ route) × Fits row.0 r.path) table

-- The path is the prefix, a namespace without a slash, a slash, and a name, none empty.
pub record IsNamed (prefix path : Text) (at : ObjectKey) : Type 0 where
  pub whole : path ≡ prefix ++ (at.namespace ++ b'/' ∷ at.name)
  pub lacks : Lacks b'/' at.namespace
  pub namespace : at.namespace ≢ []
  pub name : at.name ≢ []

Fits-path : (stem path : Text) → Fits stem path → (rest : Text) × (path ≡ stem ++ rest)
Fits-path stem path (inl same) = ([], same ∙ sym (append-nil stem))
Fits-path stem path (inr (_, rest, whole)) = (rest, whole)

parse-IsNamed :
    (prefix path : Text) (at : ObjectKey)
    → Fits prefix path
    → parse_path_segments path prefix ≡ some (at.namespace, at.name)
    → IsNamed prefix path at
unfolding trim_prefix
parse-IsNamed prefix path at fits parsed =
    let (rest, whole) = Fits-path prefix path fits in
    let (trimmed, lacks, given, named) =
      (parse_path_segments_iff path prefix at.namespace at.name).0 parsed in
    let cut : trim_prefix path prefix ≡ rest =
      rw whole (rw (cut_prefix_append prefix rest, trim_prefix) refl) in
    record {
      whole = whole ∙ ap (λ r. prefix ++ r) (sym cut ∙ trimmed);
      lacks = lacks;
      namespace = given;
      name = named;
    }

chosen-Fits :
    (mux : Mux) (r : HttpRequest)
    → IsMux mux
    → ((mux routes r ≡ chosen invoke_route) → Fits (lit "/invoke/") r.path)
      × ((mux routes r ≡ chosen render_route) → Fits (lit "/render/") r.path)
unfolding routes
chosen-Fits mux r law = (
  λ e. elim (law routes r invoke_route e) [
    | inl (other, _) ↦ absurd (ground arith)
    | inr (inl (_, fits)) ↦ fits
    | inr (inr (inl (other, _))) ↦ absurd (ground arith)
    | inr (inr (inr beyond)) ↦ absurd beyond
  ],
  λ e. elim (law routes r render_route e) [
    | inl (other, _) ↦ absurd (ground arith)
    | inr (inl (other, _)) ↦ absurd (ground arith)
    | inr (inr (inl (_, fits))) ↦ fits
    | inr (inr (inr beyond)) ↦ absurd beyond
  ],
)

module _ {Float Bucket Remote Tmpl : Type 0} (o : Outside Float Bucket Remote Tmpl)
    (mux : Mux) where
  -- What the server does with Bedrock for one request: nothing, one call for an endpoint that the path
  -- names behind /invoke/, or one call for a template that it names behind /render/.
  abbrev pub IsServed :
      HttpRequest → Scene Float → Handler Float Bucket Remote → Handler Float Bucket Remote → Type 0
  IsServed r scene h t =
      (t.link ≡ h.link)
      ⊎ ((c : IsCall o r scene h t) × IsNamed (lit "/invoke/") r.path c.admitted.at)
      ⊎ ((c : IsRenderCall o r scene h t) × IsNamed (lit "/render/") r.path c.at)

  -- A request to the server reaches Bedrock at most once, and only if its path is /invoke/, the
  -- namespace and the name of an endpoint that may be called, or /render/ with those of a template
  -- that renders. Paths of any other form, those without the prefix included, leave Bedrock alone.
  pub serve-IsServed :
      (r : HttpRequest) (scene : Scene Float) (h : Handler Float Bucket Remote)
      → IsMux mux
      → IsServed r scene h (serve o mux r scene h).1
  unfolding serve
  serve-IsServed r scene h law = elim (Dispatch-cases (mux routes r)) [
    | inl e ↦ rw (e, serve) (inl refl)
    | inr (inl e) ↦
        rw (e, serve)
          (elim (handle_invoke-link o r scene h) [
            | inl (_, same) ↦ inl same
            | inr c ↦ inr (
                inl (
                  c,
                  parse-IsNamed (lit "/invoke/") r.path c.admitted.at ((chosen-Fits mux r law).0 e)
                      c.admitted.read.path,
                ))
          ])
    | inr (inr (inl e)) ↦
        rw (e, serve)
          (elim (handle_render-IsRender o r scene h).link [
            | inl same ↦ inl same
            | inr c ↦ inr (
                inr (
                  c,
                  parse-IsNamed (lit "/render/") r.path c.at ((chosen-Fits mux r law).1 e) c.path,
                ))
          ])
    | inr (inr (inr (response, e))) ↦ rw (e, serve) (inl refl)
  ]
