-- ===== src/Config.antt =====
-- Process configuration of the rebuild: app-rebuild/internal/config/config.go. Here the records and
-- their addresses; Load has `Load`, Validate the checks that it calls, and Sound what a configuration
-- that has been loaded satisfies. A field of type int or int64 that the code keeps from being
-- negative is a natural number.
pub mod Validate
pub mod Load
pub mod Sound
pub mod Sweep
use meme_launchpad_backend.Common.{ℕ, String, Bool, not, ◌||◌, Option, List, ◌==◌, string_eq}
use meme_launchpad_backend.Go.Strconv.{itoa}
use meme_launchpad_backend.Go.Strings.{join_host_port}

pub record HttpConfig : Type 0 where
  pub host : String
  pub port : ℕ

pub record GrpcTlsConfig : Type 0 where
  pub cert_file : String
  pub key_file : String
  pub client_ca_file : String
  pub allowed_client_ids : List String

pub record GrpcConfig : Type 0 where
  pub tls : GrpcTlsConfig

pub record GrpcClientTlsConfig : Type 0 where
  pub ca_file : String
  pub cert_file : String
  pub key_file : String
  pub server_name : String

-- `TokenServiceConfig`, `TokenCreationServiceConfig` and `UploadServiceConfig`, of the same fields
pub record ServiceConfig : Type 0 where
  pub host : String
  pub port : ℕ
  pub tls : GrpcClientTlsConfig

pub record DatabaseConfig : Type 0 where
  pub url : String

pub record RedisConfig : Type 0 where
  pub addr : String
  pub password : String
  pub db : ℕ

pub record SiweConfig : Type 0 where
  pub domain : String
  pub uri : String
  pub chain_id : ℕ

pub record AuthConfig : Type 0 where
  pub jwt_private_key_file : String
  pub jwt_public_key_file : String
  pub siwe : SiweConfig

pub record TokenCreationConfig : Type 0 where
  pub chain_id : String
  pub core_contract : String
  pub factory_contract : String
  pub signer_private_key : String
  pub token_bytecode : String

pub record IndexerConfig : Type 0 where
  pub rpc_url : String
  pub chain_id : ℕ
  pub core_contract : String
  pub start_block : ℕ
  pub block_batch_size : ℕ
  pub poll_interval : ℕ

pub record CosConfig : Type 0 where
  pub secret_id : String
  pub secret_key : String
  pub bucket : String
  pub region : String
  pub domain : String

pub record Config : Type 0 where
  pub service_name : String
  pub http : HttpConfig
  pub grpc : GrpcConfig
  pub token_service : ServiceConfig
  pub token_creation_service : ServiceConfig
  pub upload_service : ServiceConfig
  pub database : DatabaseConfig
  pub redis : RedisConfig
  pub auth : AuthConfig
  pub token_creation : TokenCreationConfig
  pub indexer : IndexerConfig
  pub cos : CosConfig

-- What the checks call of go-ethereum: `common.IsHexAddress`, and whether `HexToECDSA` accepts a text,
-- with the text of its error if not.
pub record Packages : Type 0 where
  pub is_hex_address : String → Bool
  pub hex_to_ecdsa_error : String → Option String

abbrev pub is_set : String → Bool
is_set s = not (s == "")

unfoldable pub server_enabled : GrpcTlsConfig → Bool
server_enabled c = is_set c.cert_file

unfoldable pub client_enabled : GrpcClientTlsConfig → Bool
client_enabled c =
    is_set c.ca_file || (is_set c.cert_file || (is_set c.key_file || is_set c.server_name))

unfoldable pub http_address : HttpConfig → String
unfolding join_host_port itoa
http_address c = join_host_port c.host (itoa c.port)

unfoldable pub service_address : ServiceConfig → String
unfolding join_host_port itoa
service_address c = join_host_port c.host (itoa c.port)
