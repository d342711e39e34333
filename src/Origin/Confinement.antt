-- ===== src/Origin/Confinement.antt =====
-- internal/origin: where on the disk the origins write.
use loraplex.Cache.Manager.{FetchResult}
use loraplex.Cache.Manager.Installing.{Confined}
use loraplex.Cache.Store.{config_name}
use loraplex.Cache.Store.Paths.{at-join_name}
use loraplex.Go.Fs.{FilePath, Fs, at, stat, is_below, write_file}
use loraplex.Go.Fs.Laws.{outside_of, stat-write_file, same_path_below, is_below-append}
use loraplex.Go.Http.{HttpRequest, HttpResponse}
use loraplex.Go.Path.{is_rooted, join, split_slash}
use loraplex.Go.Path.Parts.{single-IsName, IsName}
use loraplex.Origin.Rounds.{Download-cases, passed_over_with, stored_with, failed_with}
use loraplex.Origin.Web.{http_origin, hugging_face_origin}
use loraplex.Origin.Web.{
  WebClient, HttpOrigin, HuggingFaceOrigin, adapter_files, store_body, answered, download,
  http_loop, http_request, http_fetch, complete, etag_of, hf_loop, with_token, hf_fetch, repo_info,
}
use loraplex.Prelude.{
  ◌≡◌, ◌≡◌, ◌≡◌, ◌≡◌, Bool, arith, ◌==◌, false, Text, Option, none, ◌≡◌, inl, take, Bool-cases,
  refl, inr, some, Option-cases, ℕ, List, codes, [], ◌∷◌, true, All, ◌∙◌, ◌++◌,
}

-- Storing an answer changes nothing away from its path.
module _ (p q : FilePath) (away : is_below p q ≡ false) where
  write-away :
      (body : Text) (now : ℕ) (fs fs' : Fs)
      → write_file p body now fs ≡ some fs'
      → stat q fs' ≡ stat q fs
  write-away body now fs fs' e =
      ground (arith, stat-write_file p q body now fs fs' e, same_path_below p q)

  store_body-away :
      (resp : HttpResponse) (cut : Option ℕ) (now : ℕ) (fs : Fs)
      → stat q (store_body p resp cut now fs).1 ≡ stat q fs
  unfolding store_body
  store_body-away resp none now fs = elim (Option-cases (write_file p resp.body now fs)) [
    | inl e ↦ rw (e, store_body) refl
    | inr (fs', e) ↦ rw (e, store_body) (write-away resp.body now fs fs' e)
  ]
  store_body-away resp (some n) now fs =
      elim (Option-cases (write_file p (take n resp.body) now fs)) [
        | inl e ↦ rw (e, store_body) refl
        | inr (fs', e) ↦ rw (e, store_body) (write-away (take n resp.body) now fs fs' e)
      ]

  pub download-away :
      (client : WebClient) (req : HttpRequest) (now : ℕ) (fs : Fs)
      → stat q (download client req p now fs).1 ≡ stat q fs
  unfolding download answered
  download-away client req now fs = elim (Bool-cases (client.can_request req.method req.url)) [
    | inr e ↦ rw (e, download) refl
    | inl e ↦
        rw (e, download)
          (elim (Option-cases (client.send req)) [
            | inl lost ↦ rw (lost, answered) refl
            | inr (resp, came) ↦
                rw (came, answered)
                  (elim (Bool-cases (resp.status == 200)) [
                    | inl good ↦ rw good (store_body-away resp (client.breaks req) now fs)
                    | inr bad ↦ rw bad refl
                  ])
          ])
  ]

pub adapter_files-IsName : All IsName adapter_files
unfolding split_slash
adapter_files-IsName = (
  single-IsName config_name refl (λ e. ground arith) (λ e. ground arith) (λ e. ground arith),
  (
    single-IsName (codes "adapter_model.safetensors") refl (λ e. ground arith) (λ e. ground arith)
        (λ e. ground arith),
    (
      single-IsName (codes "adapter_model.bin") refl (λ e. ground arith) (λ e. ground arith)
          (λ e. ground arith),
      tt,
    ),
  ),
)

module _ (dest : Text) (rooted : is_rooted dest ≡ true) where
  -- A file at a name below the target is not outside of it.
  name-away :
      (f : Text)
      → IsName f
      → (q : FilePath) → is_below (at dest) q ≡ false
      → is_below (at (join dest f)) q ≡ false
  name-away f name q out =
      rw (at-join_name dest f rooted name)
        (outside_of (at dest) (at dest ++ f ∷ []) (is_below-append (at dest) (f ∷ [])) q out)

  http_loop-outside :
      (o : HttpOrigin) (id : Text) (now : ℕ) (files : List Text) (fetched : Bool) (etag : Text)
      (fs : Fs) (q : FilePath)
      → All IsName files
      → is_below (at dest) q ≡ false
      → stat q (http_loop o id dest now files fetched etag fs).1 ≡ stat q fs
  unfolding http_loop
  http_loop-outside o id now [] fetched etag fs q names out = refl
  http_loop-outside o id now (f ∷ files) fetched etag fs q (name, names) out =
      let d = download o.client (http_request o (codes "GET") id f) (at (join dest f)) now fs in
      let same : stat q d.1 ≡ stat q fs =
        download-away (at (join dest f)) q (name-away f name q out) o.client
          (http_request o (codes "GET") id f) now fs in
      elim (Download-cases d.0) [
        | failed_with e ↦ rw (e, http_loop) same
        | passed_over_with e ↦
            rw (e, http_loop) (http_loop-outside o id now files fetched etag d.1 q names out ∙ same)
        | stored_with resp e ↦
            rw (e, http_loop)
              (http_loop-outside o id now files true (etag_of f resp etag) d.1 q names out ∙ same)
      ]

  hf_loop-outside :
      (o : HuggingFaceOrigin) (id : Text) (now : ℕ) (files : List Text) (fetched : Bool) (fs : Fs)
      (q : FilePath)
      → All IsName files
      → is_below (at dest) q ≡ false
      → stat q (hf_loop o id dest now files fetched fs).1 ≡ stat q fs
  unfolding hf_loop
  hf_loop-outside o id now [] fetched fs q names out = refl
  hf_loop-outside o id now (f ∷ files) fetched fs q (name, names) out =
      let req = with_token o.token (o.base_url ++ b'/' ∷ id ++ codes "/resolve/main/" ++ f) in
      let d = download o.client req (at (join dest f)) now fs in
      let same : stat q d.1 ≡ stat q fs =
        download-away (at (join dest f)) q (name-away f name q out) o.client req now fs in
      elim (Download-cases d.0) [
        | failed_with e ↦ rw (e, hf_loop) same
        | passed_over_with e ↦
            rw (e, hf_loop) (hf_loop-outside o id now files fetched d.1 q names out ∙ same)
        | stored_with resp e ↦
            rw (e, hf_loop) (hf_loop-outside o id now files true d.1 q names out ∙ same)
      ]

  complete-disk :
      (fetched : Bool) (fr : FetchResult) (fs : Fs) → (complete dest fetched fr fs).1 ≡ fs
  unfolding complete
  complete-disk fetched fr fs = ground arith

pub http_origin-Confined : (o : HttpOrigin) (now : ℕ) → Confined (http_origin o now)
unfolding http_origin http_fetch
http_origin-Confined o now id dest rooted fs q out =
    let after =
      http_loop-outside dest rooted o id now adapter_files false [] fs q adapter_files-IsName out in
    elim (Option-cases (http_loop o id dest now adapter_files false [] fs).0) [
      | inl e ↦ rw (e, http_fetch) (inl after)
      | inr ((fetched, etag), e) ↦ rw (e, http_fetch) (rw complete-disk (inl after))
    ]

pub hugging_face_origin-Confined :
    (sha_of : Text → Option Text) (o : HuggingFaceOrigin) (now : ℕ)
    → Confined (hugging_face_origin sha_of o now)
unfolding hugging_face_origin hf_fetch
hugging_face_origin-Confined sha_of o now id dest rooted fs q out =
    let after =
      hf_loop-outside dest rooted o id now adapter_files false fs q adapter_files-IsName out in
    elim (Option-cases (repo_info sha_of o id)) [
      | inl e ↦ rw (e, hf_fetch) (inl refl)
      | inr (sha, known) ↦
          rw (known, hf_fetch)
            (elim (Option-cases (hf_loop o id dest now adapter_files false fs).0) [
              | inl e ↦ rw (e) (inl after)
              | inr (fetched, e) ↦ rw (e) (rw complete-disk (inl after))
            ])
    ]
