-- ===== src/Origin/Rounds.antt =====
-- internal/origin/http.go and huggingface.go: the outcomes of one round of the loop over the files.
use loraplex.Go.Fs.{FilePath, Fs, stat, write_file, file}
use loraplex.Go.Fs.Laws.{stat-write_file, same_path_iff}
use loraplex.Go.Http.{HttpRequest, HttpResponse}
use loraplex.Origin.Web.{
  WebClient, store_body, answered, download, Download, passed_over, stored, failed,
}
use loraplex.Prelude.{
  ◌≡◌, refl, ◌==◌, ==_iff, inl, Option-cases, some, Text, Bool-cases, inr, Option, none, ℕ, take,
}

-- To split on the outcome of a round and keep the equation.
pub data DownloadCases (d : Download) : Type 0 where
  passed_over_with : d ≡ passed_over → DownloadCases d
  stored_with : (resp : HttpResponse) → d ≡ stored resp → DownloadCases d
  failed_with : d ≡ failed → DownloadCases d

pub Download-cases : (d : Download) → DownloadCases d
Download-cases passed_over = passed_over_with refl
Download-cases (stored resp) = stored_with resp refl
Download-cases failed = failed_with refl

-- A round that passes the file over changes nothing; one that stores it leaves the answer's body there.
module _ (p : FilePath) (now : ℕ) (fs : Fs) where
  abbrev pub Told : WebClient → HttpRequest → Download × Fs → Type 0
  Told client req (passed_over, fs') = fs' ≡ fs
  Told client req (stored resp, fs') =
      (client.send req ≡ some resp)
      × ((resp.status ≡ 200) × (stat p fs' ≡ some (file resp.body now)))
  Told client req (failed, fs') = Unit {0}

  write_there :
      (body : Text) (fs' : Fs)
      → write_file p body now fs ≡ some fs'
      → stat p fs' ≡ some (file body now)
  write_there body fs' e =
      rw (stat-write_file p p body now fs fs' e, (same_path_iff p p).1 refl) refl

  store_body-tells :
      (client : WebClient) (req : HttpRequest) (resp : HttpResponse)
      → client.send req ≡ some resp
      → resp.status ≡ 200
      → (cut : Option ℕ) → Told client req (store_body p resp cut now fs)
  unfolding store_body
  store_body-tells client req resp came good none =
      elim (Option-cases (write_file p resp.body now fs)) [
        | inl e ↦ rw (e, store_body) tt
        | inr (fs', e) ↦ rw (e, store_body) (came, (good, write_there resp.body fs' e))
      ]
  store_body-tells client req resp came good (some n) =
      elim (Option-cases (write_file p (take n resp.body) now fs)) [
        | inl e ↦ rw (e, store_body) tt
        | inr (fs', e) ↦ rw (e, store_body) tt
      ]

  pub download-tells :
      (client : WebClient) (req : HttpRequest) → Told client req (download client req p now fs)
  unfolding download answered
  download-tells client req = elim (Bool-cases (client.can_request req.method req.url)) [
    | inr e ↦ rw (e, download) tt
    | inl e ↦
        rw (e, download)
          (elim (Option-cases (client.send req)) [
            | inl lost ↦ rw (lost, answered) refl
            | inr (resp, came) ↦
                rw (came, answered)
                  (elim (Bool-cases (resp.status == 200)) [
                    | inl good ↦ rw good (
                        store_body-tells client req resp came ((==_iff resp.status 200).0 good)
                          (client.breaks req))
                    | inr bad ↦ rw bad refl
                  ])
          ])
  ]
