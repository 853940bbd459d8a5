-- ===== src/Tests/Signing.antt =====
-- The theorems about token creation and uploads at concrete inputs.
use meme_launchpad_backend.Common.{
  ℕ, ◌≡◌, refl, none, some, Option, List, [], ◌∷◌, ◌++◌, arith, ◌==◌, nat_eq, if◌then◌else◌,
  string_eq,
}
use meme_launchpad_backend.Fallible.{ok, err, ok-Yields}
use meme_launchpad_backend.Go.Hex.{AreBytes}
use meme_launchpad_backend.TokenCreation.{
  Config, Request, Response, Packages, Requests, insert_request, token_creation_repository,
}
use meme_launchpad_backend.TokenCreation.Service.{create}
use meme_launchpad_backend.TokenCreation.Signed.{
  AreDocumented, IsSigned, create-IsSigned, IsSignature,
}
use meme_launchpad_backend.TokenCreation.Stored.{Outcome, create-Outcome}
use meme_launchpad_backend.Upload as Upload
use meme_launchpad_backend.Upload.{Service, PresignResult, presign}

abbrev eight : List ℕ
eight = 1 ∷ 2 ∷ 3 ∷ 4 ∷ 5 ∷ 6 ∷ 7 ∷ 8 ∷ []

abbrev sixty_four : List ℕ
sixty_four = eight ++ (eight ++ (eight ++ (eight ++ (eight ++ (eight ++ (eight ++ eight))))))

abbrev packages : Packages ℕ
packages = record {
  keccak256 = λ bytes. 7 ∷ [];
  address_hex = λ a. "0xAB";
  pack_params = λ p. ok (1 ∷ 2 ∷ []);
  pack_constructor = λ name symbol supply core. ok (3 ∷ []);
  sign = λ hash key. ok (sixty_four ++ (1 ∷ []));
}

abbrev config : Config ℕ
config = record {
  chain_id = 97;
  core = 171;
  factory = 172;
  token_creation_bytecode = 96 ∷ 128 ∷ [];
  signer = some 5;
}

-- a signature with the recovery id 28 is the key's
abbrev recover : List ℕ → List ℕ → Option ℕ
recover hash [] = none
recover hash (v ∷ []) = if v == 28 then some 9 else none
recover hash (b ∷ bytes) = recover hash bytes

documented : AreDocumented packages 5 recover 9
documented = record {
  packs = λ p. ok-Yields AreBytes (omega arith);
  signs = λ hash. ok-Yields (IsSignature packages 5 recover 9 hash) (record {
    rs = sixty_four;
    v = 1;
    ends = refl;
    long = refl;
    bytes = omega arith;
    id = omega arith;
    recovers = refl;
  });
}

abbrev request : Request
request = record {
  name = "Meme";
  symbol = "MEME";
  creator = 3;
  launch_time = 0;
  initial_buy_percentage = 100;
}

abbrev database : Requests
database = record { db = []; faults = [] }

abbrev answer : Response
answer = record {
  call_data = "0x0102";
  signature =
      "0x010203040506070801020304050607080102030405060708010203040506070801020304050607080102030405060708010203040506070801020304050607081c";
  request_id = "0x07";
  salt = "0x07";
  predicted_address = "0xAB";
  nonce = 258;
  timestamp = 1700000000;
}

answered :
    (create packages config token_creation_repository 1700000000
      (ok (1 ∷ 2 ∷ []))
      request
      database).0
    ≡ ok answer
unfolding create insert_request
answered = refl

create-IsSigned_example : IsSigned packages 5 recover 9 config request answer
create-IsSigned_example =
    create-IsSigned packages 5 recover 9 config documented refl token_creation_repository 1700000000
      (ok (1 ∷ 2 ∷ [])) request database answer answered

create-Outcome_example :
    Outcome packages config request []
      (create packages config token_creation_repository 1700000000
        (ok (1 ∷ 2 ∷ []))
        request
        database).0
      (create packages config token_creation_repository 1700000000
        (ok (1 ∷ 2 ∷ []))
        request
        database).1.db
create-Outcome_example =
    create-Outcome packages config 1700000000 (ok (1 ∷ 2 ∷ [])) request database

abbrev digests : Upload.Packages
digests = record {
  hmac_sha1 = λ key text. "aa";
  sha1_hex = λ text. "bb";
  query_escape = λ s. s;
  to_lower = λ s. s;
}

abbrev storage : Service
storage = record {
  secret_id = "id";
  secret_key = "key";
  bucket = "meme";
  region = "eu";
  domain = "";
}

abbrev bytes : List ℕ
bytes = eight ++ eight

abbrev hourly : ℕ → ℕ
hourly _ = 1700000000

abbrev stored : PresignResult
stored = elim (presign digests storage hourly (ok bytes) "logo" "image/gif" 97) [
  | ok r ↦ r
  | err _ ↦ record { upload_url = ""; public_url = ""; file_name = ""; key = ""; expires = 0 }
]

presigned : presign digests storage hourly (ok bytes) "logo" "image/gif" 97 ≡ ok stored
unfolding presign
presigned = refl
