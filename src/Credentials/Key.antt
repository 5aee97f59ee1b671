-- ===== src/Credentials/Key.antt =====
-- `devicePairKey` of apps/companion/src/credentials/identity-store.ts.
use Prim.Native.String.{String, ◌++◌}

unfoldable pub device_pair_key : String → String → String
device_pair_key phone_device_id desktop_device_id = phone_device_id ++ ("\0" ++ desktop_device_id)
