-- ===== src/Origin.antt =====
-- internal/origin: where adapters are fetched from. Each origin fills the interface of the manager,
-- `OriginFetcher`; `now` is the time at which its files are written.
pub mod Web
pub mod Rounds
pub mod Bucket
pub mod Confinement
pub mod Plain
pub mod Completeness
use loraplex.Cache.Manager.{OriginFetcher}
use loraplex.Config.{OriginConfig}
use loraplex.Origin.Web.{WebClient, new_http, http_origin, new_hugging_face, hugging_face_origin}
use loraplex.Origin.Bucket.{BucketClient, new_s3, s3_origin}
use loraplex.Prelude.{
  Bool, if◌then◌else◌, none, codes, ℕ, Text, List, err, ok, str_eq, Result, [], ◌>>◌, ◌∷◌, ◌>>=◌,
  Option, some,
}

pub data OriginError : Type 0 where
  init_s3 : OriginError
  unknown_type : Text → OriginError

-- What the origins reach the outside by: HTTP, the JSON of the Hugging Face API, and the client that the AWS SDK makes
-- for a bucket and a region, or `none` if it finds no configuration.
pub record Outside : Type 0 where
  pub web : WebClient
  pub sha_of : Text → Option Text
  pub aws : Text → Text → Option BucketClient

module _ (out : Outside) (now : ℕ) where
  unfoldable pub origin_of : OriginConfig → Result OriginError OriginFetcher
  origin_of cfg =
      if str_eq cfg.origin_type (codes "s3")
      then elim (out.aws cfg.bucket cfg.region) [
        | none ↦ err init_s3
        | some client ↦ ok (s3_origin (new_s3 client cfg.prefix) now)
      ]
      else if str_eq cfg.origin_type (codes "huggingface")
      then ok (hugging_face_origin out.sha_of (new_hugging_face out.web cfg.token) now)
      else if str_eq cfg.origin_type (codes "http")
      then ok (http_origin (new_http out.web cfg.base_url) now)
      else err (unknown_type cfg.origin_type)

  unfoldable pub from_config : List OriginConfig → Result OriginError (List OriginFetcher)
  from_config [] = ok []
  from_config (cfg ∷ cfgs) = do o ← origin_of cfg; os ← from_config cfgs; ok (o ∷ os)
