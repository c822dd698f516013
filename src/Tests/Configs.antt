-- ===== src/Tests/Configs.antt =====
-- A configuration file with a comment and a setting.
use ehttp.Base.{◌≡◌, [], ◌∷◌, ◌++◌, some, pos, Bytes, codes}
use ehttp.SimpleConfig.Lines.{last_setting, get_config_map-last_setting}
use ehttp.SimpleConfig.{get_config_map}
use ehttp.Std.OrdMap
use ehttp.Std.Order.{bytes_ord}
use ehttp.Std.Split.{split_on}

abbrev file : Bytes
file = codes "#log=error" ++ (10 ∷ codes "log=debug")

get_config_map-last_setting_example :
    let r = get_config_map (some file) [] in
    (r.0 ≡ pos 0)
    × (OrdMap.find (codes "log") r.1
        ≡ last_setting (codes "log") (split_on 10 file) (OrdMap.find (codes "log") []))
get_config_map-last_setting_example = get_config_map-last_setting file (codes "log") []
