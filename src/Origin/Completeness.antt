-- ===== src/Origin/Completeness.antt =====
-- internal/origin/http.go and huggingface.go: what a successful fetch leaves in its target.
use loraplex.Cache.Manager.{FetchResult}
use loraplex.Cache.Store.{config_name}
use loraplex.Cache.Store.Paths.{at-join_name}
use loraplex.Go.Fs.{Node, Node, FilePath, Fs, at, stat, is_some, is_below, file}
use loraplex.Go.Fs.Laws.{is_below-sibling}
use loraplex.Go.Http.{HttpResponse, get}
use loraplex.Go.Path.{is_rooted, join}
use loraplex.Go.Path.Parts.{IsName}
use loraplex.Origin.Confinement.{download-away, adapter_files-IsName}
use loraplex.Origin.Rounds.{
  Download-cases, passed_over_with, stored_with, failed_with, Told, download-tells,
}
use loraplex.Origin.Web.{
  Download, passed_over, stored, failed, HttpOrigin, download, http_request, etag_of, http_loop,
  complete, http_fetch,
}
use loraplex.Prelude.{
  Bool, Option, ◌≡◌, Text, some, ℕ, Option-cases, none, arith, inr, inl, refl, List, [], codes,
  false, true, ◌∷◌, ◌≢◌, All, subst, ◌∙◌, str_eq_iff, str_eq_refl, if◌then◌else◌, sym, ap, not,
  is_empty, str_eq, ◌&&◌,
}

-- After the configuration, the other two files leave it as it is.
abbrev IsOther : Text → Type 0
IsOther f = IsName f × (f ≢ config_name)

abbrev other_files : List Text
other_files = codes "adapter_model.safetensors" ∷ codes "adapter_model.bin" ∷ []

other_files-IsOther : All IsOther other_files
other_files-IsOther =
    let (config, (tensors, (bin, end))) = adapter_files-IsName in
    ((tensors, λ e. ground arith), ((bin, λ e. ground arith), tt))

module _ (dest : Text) (rooted : is_rooted dest ≡ true) where
  abbrev config_path : FilePath
  config_path = at (join dest config_name)

  config_away : (f : Text) → IsOther f → is_below (at (join dest f)) config_path ≡ false
  config_away f (name, other) =
      let (config, rest) = adapter_files-IsName in
      rw (at-join_name dest f rooted name, at-join_name dest config_name rooted config)
        (is_below-sibling (at dest) f config_name other)

  module _ (o : HttpOrigin) (id : Text) (now : ℕ) where
    abbrev KeepsConfig : Text → Option Node → Option (Bool × Text) × Fs → Type 0
    KeepsConfig etag before (none, fs') = Unit {0}
    KeepsConfig etag before (some (fetched, etag'), fs') =
        (etag' ≡ etag) × (stat config_path fs' ≡ before)

    etag_of_other :
        (f : Text) (resp : HttpResponse) (etag : Text)
        → f ≢ config_name
        → etag_of f resp etag ≡ etag
    unfolding etag_of
    etag_of_other f resp etag other = ground (arith, str_eq_iff f config_name)

    http_loop_others :
        (before : Option Node) (files : List Text)
        → All IsOther files
        → (fetched : Bool) (etag : Text) (fs : Fs) → stat config_path fs ≡ before
        → KeepsConfig etag before (http_loop o id dest now files fetched etag fs)
    unfolding http_loop
    http_loop_others before [] others fetched etag fs at_config = (refl, at_config)
    http_loop_others before (f ∷ files) (other, others) fetched etag fs at_config =
        let req = http_request o (codes "GET") id f in
        let d = download o.client req (at (join dest f)) now fs in
        let same =
          download-away (at (join dest f)) config_path (config_away f other) o.client req now fs
          ∙ at_config in
        elim (Download-cases d.0) [
          | failed_with e ↦ rw (e, http_loop) tt
          | passed_over_with e ↦
              rw (e, http_loop) (http_loop_others before files others fetched etag d.1 same)
          | stored_with resp e ↦
              rw (e, http_loop, etag_of_other f resp etag other.1)
                (http_loop_others before files others true etag d.1 same)
        ]

    abbrev pub fetched_as : Text → FetchResult
    fetched_as etag = record { origin = codes "http"; etag = etag; revision = [] }

    -- What is made of the loop's result.
    abbrev concluded : Option (Bool × Text) × Fs → Option FetchResult × Fs
    concluded r = elim r.0 [
      | none ↦ (none, r.1)
      | some (fetched, etag) ↦ complete dest fetched (fetched_as etag) r.1
    ]

    completed :
        (etag : Text) (before : Option Node) (fr : FetchResult) (fs' : Fs)
        (r : Option (Bool × Text) × Fs)
        → KeepsConfig etag before r
        → concluded r ≡ (some fr, fs')
        → (is_some before ≡ true) × ((stat config_path fs' ≡ before) × (fr ≡ fetched_as etag))
    unfolding complete
    completed etag before fr fs' (none, fs1) keeps succeeded = cc
    completed etag before fr fs' (some (false, etag'), fs1) keeps succeeded = cc
    completed etag before fr fs' (some (true, etag'), fs1) (same, at_config) succeeded =
        elim (Option-cases before) [
          | inl e ↦ cc (rw (at_config, e) at succeeded)
          | inr (n, e) ↦
              let whole : ◌≡◌ {A = Option FetchResult × Fs} (some (fetched_as etag'), fs1)
                  (some fr, fs') =
                rw (at_config, e) at succeeded in
              let fr_is : fetched_as etag' ≡ fr = cc in
              let fs_is : fs1 ≡ fs' = cc in
              (rw e refl, (rw (← fs_is) at_config, sym fr_is ∙ ap fetched_as same))
        ]

    etag_of_config :
        (resp : HttpResponse) → etag_of config_name resp [] ≡ get (codes "ETag") resp.headers
    unfolding etag_of is_empty
    etag_of_config resp = elim_get (get (codes "ETag") resp.headers)
      where
        elim_get :
            (e : Text) → (if str_eq config_name config_name && not (is_empty e) then e else []) ≡ e
        elim_get [] = ground arith
        elim_get (c ∷ e) = rw (str_eq_refl config_name) refl

    module _ (f : Text) (files : List Text) (fetched : Bool) (etag : Text) (fs : Fs) where
      abbrev round : Download × Fs
      round = download o.client (http_request o (codes "GET") id f) (at (join dest f)) now fs

      loop-failed :
          round.0 ≡ failed → http_loop o id dest now (f ∷ files) fetched etag fs ≡ (none, round.1)
      unfolding http_loop
      loop-failed e = rw (e, http_loop) refl

      loop-passed_over :
          round.0 ≡ passed_over
          → http_loop o id dest now (f ∷ files) fetched etag fs
            ≡ http_loop o id dest now files fetched etag round.1
      unfolding http_loop
      loop-passed_over e = rw (e, http_loop) refl

      loop-stored :
          (resp : HttpResponse)
          → round.0 ≡ stored resp
          → http_loop o id dest now (f ∷ files) fetched etag fs
            ≡ http_loop o id dest now files true (etag_of f resp etag) round.1
      unfolding http_loop
      loop-stored resp e = rw (e, http_loop) refl

    -- A fetch over HTTP into a directory without a configuration that succeeds has stored the body of
    -- the answer with status 200 to its request for the configuration, and reports that answer's ETag.
    pub http_fetch-config :
        (fr : FetchResult) (fs fs' : Fs)
        → stat config_path fs ≡ none
        → http_fetch o now id dest fs ≡ (some fr, fs')
        → (resp : HttpResponse) × ((o.client.send (http_request o (codes "GET") id config_name)
              ≡ some resp)
            × ((resp.status ≡ 200)
                × ((stat config_path fs' ≡ some (file resp.body now))
                    × (fr ≡ fetched_as (get (codes "ETag") resp.headers)))))
    unfolding http_fetch
    http_fetch-config fr fs fs' absent succeeded =
        let req = http_request o (codes "GET") id config_name in
        let d = download o.client req config_path now fs in
        let told = download-tells config_path now fs o.client req in
        elim (Download-cases d.0) [
          | failed_with e ↦ cc (
              subst (λ r. concluded r ≡ (some fr, fs'))
                (loop-failed config_name other_files false [] fs e) succeeded)
          | passed_over_with e ↦
              let same : d.1 ≡ fs = rw (e, Told) at told in
              let (there, rest) =
                completed [] none fr fs' (http_loop o id dest now other_files false [] d.1)
                  (http_loop_others none other_files other_files-IsOther false [] d.1
                    (rw same absent))
                  (subst (λ r. concluded r ≡ (some fr, fs'))
                    (loop-passed_over config_name other_files false [] fs e) succeeded) in
              cc there
          | stored_with resp e ↦
              let (came, (good, at_config)) : (o.client.send req ≡ some resp)
                  × ((resp.status ≡ 200) × (stat config_path d.1 ≡ some (file resp.body now))) =
                rw (e, Told) at told in
              let (there, (kept, result)) =
                completed (etag_of config_name resp []) (some (file resp.body now)) fr fs'
                  (http_loop o id dest now other_files true (etag_of config_name resp []) d.1)
                  (http_loop_others (some (file resp.body now)) other_files other_files-IsOther true
                    (etag_of config_name resp []) d.1 at_config)
                  (subst (λ r. concluded r ≡ (some fr, fs'))
                    (loop-stored config_name other_files false [] fs resp e) succeeded) in
              (resp, (came, (good, (kept, result ∙ ap fetched_as (etag_of_config resp)))))
        ]
