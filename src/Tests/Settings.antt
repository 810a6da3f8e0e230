-- ===== src/Tests/Settings.antt =====
-- The configuration at a small file.
use ether_recorder_suite.Prelude.{
  ℕ, ◌≡◌, refl, true, some, List, [], ◌∷◌, ◌++◌, ◌&&◌, arith, codes, if◌then◌else◌, bytes_eq,
}
use ether_recorder_suite.Text.{
  trim_comments, trim_end, skip_spaces, platform_strcat, trim_whitespace, same_nocase, split_at,
  cut_comment,
}
use ether_recorder_suite.Text.Trim.{all_space, starts_bare, ends_bare}
use ether_recorder_suite.Text.Cut.{plain}
use ether_recorder_suite.Config.{
  load_line, load_lines, load_config, file_lines, fgets, get_config_string, get_config_uint16,
  get_config_int, find_config_entry, atoi, digits,
}
use ether_recorder_suite.Config.Load.{IsKey, IsValue, setting}
use ether_recorder_suite.Config.Values.{
  AllFit, load_config-AllFit, get_config_string-setting, get_config_uint16_lt,
}
use ether_recorder_suite.Config.Values
use ether_recorder_suite.Config.File.{
  Item, heading, assign, IsItem, AllItems, render, meaning, load_config-render, item_text,
  item_line,
}
use ether_recorder_suite.Config.File

abbrev port : List ℕ
port = codes "server.server_port"

abbrev number : List ℕ
number = codes "4200"

abbrev network : List ℕ
network = codes "network"

abbrev blank : List ℕ
blank = 32 ∷ []

abbrev items : List Item
items = heading network ∷ assign port number ∷ []

port-IsKey : IsKey port
unfolding starts_bare ends_bare plain
port-IsKey = record {
  filled = refl;
  starts = refl;
  ends = refl;
  no_signs = refl;
  no_section = ground arith;
  short = ground arith;
}

number-IsValue : IsValue number
unfolding starts_bare ends_bare cut_comment
number-IsValue = record {
  filled = refl;
  starts = refl;
  ends = refl;
  no_comment = refl;
  short = ground arith;
}

items-AllItems : AllItems items
unfolding IsItem item_text split_at plain
items-AllItems =
    File.one_more (heading network) (refl, refl, ground arith) refl (ground arith)
      (File.one_more (assign port number) (port-IsKey, number-IsValue) refl (ground arith)
        File.none_left)

-- What the program reads of the file.
port_read :
    get_config_uint16 (load_config (some (render items)) []).1 (codes "Network") port 8080 ≡ 4200
unfolding get_config_uint16 get_config_int get_config_string find_config_entry load_config
    load_lines load_line file_lines fgets render item_line item_text atoi digits same_nocase
    trim_comments trim_whitespace trim_end skip_spaces cut_comment split_at bytes_eq platform_strcat
port_read = refl

load_config-render_example :
    load_config (some (render items)) [] ≡ (true, (meaning ([], []) items).1)
load_config-render_example = load_config-render items [] items-AllItems

load_config-AllFit_example : AllFit (load_config (some (render items)) []).1
load_config-AllFit_example = load_config-AllFit (some (render items)) [] Values.none_left

get_config_string-setting_example :
    get_config_string
      (load_line (network, []) (blank ++ (setting port blank blank number ++ blank))).1
      network
      port
    ≡ (if same_nocase network network && same_nocase port port
        then some number
        else get_config_string [] network port)
unfolding all_space
get_config_string-setting_example =
    get_config_string-setting port blank blank number blank blank network network port [] port-IsKey
      number-IsValue refl refl refl refl (ground arith)
