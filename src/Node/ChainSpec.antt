-- ===== src/Node/ChainSpec.antt =====
-- node/src/chain_spec.rs: the chain specifications that the node has built in.
use Prim.Native.String.{String, ◌++◌}
use contradots_techconnect_c.Base.{none, some, List, [], ◌∷◌}
use contradots_techconnect_c.Node.Data.{
  AccountId, Balance, development, local, Value, text, number, GenesisConfig, Builder, Io, ◌>>=◌,
  pure, expect,
}
use contradots_techconnect_c.Node.Library.{Substrate}
use contradots_techconnect_c.Runtime.{parachain_id}

abbrev pub relay_chain : String
relay_chain = "rococo-local"

abbrev pub initial_balance : Balance
initial_balance = 1000000000000000

abbrev pub endow : List AccountId → List (AccountId × Balance)
endow [] = []
endow (account ∷ accounts) = (account, initial_balance) ∷ endow accounts

abbrev pub properties : List (String × Value)
properties =
    ("tokenSymbol", text "UNIT") ∷ ("tokenDecimals", number 12) ∷ ("ss58Format", number 42) ∷ []

module _ (L : Substrate) where
  unfoldable pub get_account_id_from_seed : String → Io AccountId
  get_account_id_from_seed seed = do
    pair ← expect (L.from_string ("//" ++ seed))
    pure (L.into_account (L.into_signer (L.public pair)))

  unfoldable pub build_genesis : List AccountId → AccountId → Io GenesisConfig
  build_genesis endowed sudo = do
    code ← expect L.wasm_binary
    pure
        (record { code = code; minimum_period = 0; balances = endow endowed; sudo_key = some sudo })

  unfoldable pub development_chain_spec : Io Builder
  unfolding get_account_id_from_seed build_genesis
  development_chain_spec = do
    sudo ← get_account_id_from_seed "Alice"
    bob ← get_account_id_from_seed "Bob"
    charlie ← get_account_id_from_seed "Charlie"
    dave ← get_account_id_from_seed "Dave"
    eve ← get_account_id_from_seed "Eve"
    ferdie ← get_account_id_from_seed "Ferdie"
    code ← expect L.wasm_binary
    genesis ← build_genesis (sudo ∷ bob ∷ charlie ∷ dave ∷ eve ∷ ferdie ∷ []) sudo
    pure (record {
      code = code;
      extensions = record { relay_chain = relay_chain; para_id = parachain_id };
      name = "Development";
      id = "dev";
      chain_type = development;
      genesis_config = genesis;
      protocol_id = none;
      properties = properties;
    })

  unfoldable pub local_chain_spec : Io Builder
  unfolding get_account_id_from_seed build_genesis
  local_chain_spec = do
    sudo ← get_account_id_from_seed "Alice"
    bob ← get_account_id_from_seed "Bob"
    charlie ← get_account_id_from_seed "Charlie"
    code ← expect L.wasm_binary
    genesis ← build_genesis (sudo ∷ bob ∷ charlie ∷ []) sudo
    pure (record {
      code = code;
      extensions = record { relay_chain = relay_chain; para_id = parachain_id };
      name = "Local Testnet";
      id = "local_testnet";
      chain_type = local;
      genesis_config = genesis;
      protocol_id = some "template-local";
      properties = properties;
    })
