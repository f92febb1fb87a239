-- ===== src/Orchestrator/Authorizers.antt =====
-- pkg/orchestrator/authorizer.go: the signatures of the authorizers over a reshare. A signer is what
-- it answers at the call, `none` being an error: mpcium's local signer, or the answer of a remote one.
use aicw_node.Base.{
  ℕ, Bool, true, false, Option, none, some, List, [], ◌∷◌, if◌then◌else◌, ◌==◌, Str, text, str_eq,
  elem, Result, ok, err,
}
use aicw_node.Types.Messages.{AuthorizerSignature}

pub record Signer : Type 0 where
  pub id : Str
  pub sign : Str → Option Str

pub data CollectError : Type 0 where
  duplicate sign_failed empty_signature : Str → CollectError

-- The loop of Collect with the ids seen, and the signatures behind those collected so far.
unfoldable pub collect_from :
    Str → List Str → List Signer → Result CollectError (List AuthorizerSignature)
collect_from raw seen [] = ok []
collect_from raw seen (s ∷ ss) =
    if elem s.id seen then err (duplicate s.id) else elim (s.sign raw) [
      | none ↦ err (sign_failed s.id)
      | some sig ↦
          if str_eq sig []
          then err (empty_signature s.id)
          else elim (collect_from raw (s.id ∷ seen) ss) [
            | err e ↦ err e
            | ok rest ↦ ok (record { authorizer_id = s.id; signature = sig } ∷ rest)
          ]
    ]

unfoldable pub enabled : List Signer → Bool
enabled [] = false
enabled (s ∷ ss) = true

unfoldable pub collect : List Signer → Str → Result CollectError (List AuthorizerSignature)
collect signers raw = if enabled signers then collect_from raw [] signers else ok []

pub record AuthorizerSpec : Type 0 where
  pub id : Str
  pub mode : Str
  pub key_path : Str
  pub algorithm : Str
  pub url : Str
  pub token : Str
  pub token_env : Str

pub data SpecError : Type 0 where
  missing_id : SpecError
  no_key_path key_not_loaded no_url unknown_mode : Str → SpecError

-- The answer of a remote authorizer: the status, and the decoded body.
pub record RemoteResponse : Type 0 where
  pub status : ℕ
  pub signature : Str

-- After the request: `none` is a failed one, or a body that does not decode.
unfoldable pub remote_answer : (Str → Option Str) → Option RemoteResponse → Option Str
remote_answer base64 none = none
remote_answer base64 (some r) = if r.status == 200 then base64 r.signature else none

module _ (load : Str → Str → Str → Option Signer) (remote : Str → Str → Str → Signer) where
  unfoldable pub new_local_authorizer_signer : Str → Str → Str → Option Signer
  new_local_authorizer_signer id key_path algorithm =
      load id key_path (if str_eq algorithm [] then text "ed25519" else algorithm)

  -- One round of the loop of NewAuthorizerClientFromSpecs.
  unfoldable pub signer_of : AuthorizerSpec → Result SpecError Signer
  signer_of spec =
      if str_eq spec.id []
      then err missing_id
      else if str_eq spec.mode []
      then local_signer
      else if str_eq spec.mode (text "local")
      then local_signer
      else if str_eq spec.mode (text "remote")
      then (if str_eq spec.url []
          then err (no_url spec.id)
          else ok (remote spec.id spec.url spec.token))
      else err (unknown_mode spec.id)
    where
      local_signer : Result SpecError Signer
      local_signer =
          if str_eq spec.key_path []
          then err (no_key_path spec.id)
          else elim (new_local_authorizer_signer spec.id spec.key_path spec.algorithm) [
            | none ↦ err (key_not_loaded spec.id)
            | some s ↦ ok s
          ]

  unfoldable pub signers_of : List AuthorizerSpec → Result SpecError (List Signer)
  signers_of [] = ok []
  signers_of (spec ∷ specs) = elim (signer_of spec) [
    | err e ↦ err e
    | ok s ↦ elim (signers_of specs) [ err e ↦ err e | ok ss ↦ ok (s ∷ ss) ]
  ]
