-- ===== src/Ca/Forget.antt =====
-- `forget_node` and `set_caps` of ca.py, and what `node_info` says after them.
use greasewood.Base.{list_eq, nat_eq, pair_eq, option_eq}
use greasewood.Base.Dict
use greasewood.Base.Dict.{Dict, NodupKeys}
use greasewood.Wire.Crypto.{Crypto}
use greasewood.Wire.Statement.{kind_eq}
use greasewood.Directory.Defs.{Directory}
