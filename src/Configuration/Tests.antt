-- ===== src/Configuration/Tests.antt =====
-- The configuration file at concrete contents; the doubles are whole numbers here.
use cwkeyer.Base.{◌≡◌, ◌≢◌, refl, true, false, some, arith}
use cwkeyer.Base.Int.{ℤ, pos}
use cwkeyer.Base.Text.{codes}
use cwkeyer.Configuration.{
  number, end, field, returns, undefined, Disk, find, object_of, look_up, map_result, get_value,
  get_value_bool, get_value_string, get_value_int, get_value_double, c_str, put_object,
  put_value_double, put_value_bool, put_value_string, put_value_int, to_text,
}
use cwkeyer.Configuration.Laws.{after, get-put}

abbrev same : ℤ → ℤ
same n = n

abbrev disk : Disk ℤ
disk = record {
  present = true;
  readable = true;
  writable = true;
  root = some (field (codes "wpm") (number (pos 18)) (field (codes "mode") (number (pos 1)) end));
}

abbrev locked : Disk ℤ
locked = record disk { readable = false }

-- getValueString makes a std::string of nullptr if the key is missing.
missing_string : get_value_string (codes "remote_ip") disk ≡ undefined
unfolding get_value_string map_result look_up object_of find to_text
missing_string = refl

wpm-mode : codes "wpm" ≢ codes "mode"
wpm-mode e = ground arith

whole : c_str (codes "::1") ≡ codes "::1"
unfolding c_str
whole = refl

get-put_example :
    let key = codes "remote_ip" in
    (after (put_value_int same same key (pos 7) disk) (get_value_int same same key)
      ≡ returns (pos 7))
    × (after (put_value_double key (pos 8) disk) (get_value_double same same key) ≡ returns (pos 8))
    × (after (put_value_bool key true disk) (get_value_bool key) ≡ returns true)
    × (after (put_value_string key (codes "::1") disk) (get_value_string key)
        ≡ returns (codes "::1"))
    × (after (put_object key end disk) (get_value key) ≡ returns (some end))
get-put_example =
    get-put same same (codes "remote_ip") (pos 7) (pos 8) true (codes "::1") end disk refl refl refl
      whole
