-- ===== src/Configuration/Laws.antt =====
-- Reading what was written (App/configuration/Configuration.cpp).
use cwkeyer.Base.{
  ℕ, ◌≡◌, ◌≢◌, refl, ap, ◌∙◌, Bool, true, false, List, Option, none, some, arith, Bool-cases, inl,
  inr,
}
use cwkeyer.Base.Int.{ℤ}
use cwkeyer.Base.Text.{text_eq, text_eq_self, text_eq→≡}
use cwkeyer.Configuration.{
  JsonValue, number, boolean, text, object, JsonObject, end, field, Result, returns, Disk, find,
  insert, remove, object_of, read_full_json, write_full_json, look_up, map_result, get_value,
  has_value, get_value_bool, get_value_string, put, put_object, put_value_double, put_value_bool,
  c_str, put_value_string, remove_value, put_value_int, get_value_int, get_value_double, to_object,
  to_bool, to_text, as_int, as_double, is_some,
}

-- A function of a disk that a first step gives.
abbrev pub after : {A B : Type 0} → Result A → (A → Result B) → Result B
after r f = map_result f r

differ : (s t : List ℕ) → s ≢ t → text_eq s t ≡ false
differ s t h = elim (Bool-cases (text_eq s t)) [ inl e ↦ absurd (h (text_eq→≡ s t e)) | inr e ↦ e ]

module _ {D : Type 0} where
  pub find-insert :
      (key : List ℕ) (v : JsonValue D) (o : JsonObject D) → find key (insert key v o) ≡ some v
  unfolding find insert
  find-insert key v end = ground (arith, text_eq_self key)
  find-insert key v (field k w o) = ground (arith, find-insert key v o)

  pub find-insert_ne :
      (key other : List ℕ) (v : JsonValue D) (o : JsonObject D)
      → key ≢ other
      → find other (insert key v o) ≡ find other o
  unfolding find insert
  find-insert_ne key other v end h = ground (arith, differ key other h)
  find-insert_ne key other v (field k w o) h =
      ground (arith, differ key other h, text_eq→≡ k key, find-insert_ne key other v o h)

  find-remove : (key : List ℕ) (o : JsonObject D) → find key (remove key o) ≡ none
  unfolding find remove
  find-remove key end = refl
  find-remove key (field k w o) = ground (arith, find-remove key o)

  find-remove_ne :
      (key other : List ℕ) (o : JsonObject D)
      → key ≢ other
      → find other (remove key o) ≡ find other o
  unfolding find remove
  find-remove_ne key other end h = refl
  find-remove_ne key other (field k w o) h =
      ground (arith, differ key other h, text_eq→≡ k key, find-remove_ne key other o h)

  abbrev holds : Disk D → JsonObject D → Disk D
  holds d o = record d { present = true; root = some o }

  put-holds :
      (key : List ℕ) (v : JsonValue D) (d : Disk D)
      → d.writable ≡ true
      → put key v d ≡ returns (holds d (insert key v (read_full_json d)))
  unfolding put write_full_json
  put-holds key v d w = rw w refl

  look_up-holds :
      (key : List ℕ) (o : JsonObject D) (d : Disk D)
      → d.readable ≡ true
      → look_up key (holds d o) ≡ returns (find key o)
  unfolding look_up object_of
  look_up-holds key o d r = rw r refl

  -- What a getter makes of a value that was put.
  getter-put :
      {A : Type 0} (f : Option (JsonValue D) → Result A) (key : List ℕ) (v : JsonValue D)
      (d : Disk D)
      → d.readable ≡ true
      → d.writable ≡ true
      → after (put key v d) (λ e. map_result f (look_up key e)) ≡ f (some v)
  unfolding map_result
  getter-put f key v d r w =
      let o = insert key v (read_full_json d) in
      ap (λ s. after s (λ e. map_result f (look_up key e))) (put-holds key v d w)
      ∙ ap (map_result f) (look_up-holds key o d r)
      ∙ ap f (find-insert key v (read_full_json d))

  -- If the file can be read and written, putting a value under one key changes what no other key
  -- reads, whether the file existed or not and whatever it held.
  look_up-put_ne :
      (key other : List ℕ) (v : JsonValue D) (d : Disk D)
      → d.readable ≡ true
      → d.writable ≡ true
      → key ≢ other
      → after (put key v d) (look_up other) ≡ look_up other d
  unfolding put look_up write_full_json read_full_json map_result object_of find
  look_up-put_ne key other v d r w h =
      rw w (rw r (ground (arith, find-insert_ne key other v (read_full_json d) h)))

  -- If the file can be read and written, a key that removeValue has removed has no value, and every
  -- other key reads as before.
  has_value-remove :
      (key other : List ℕ) (d : Disk D)
      → d.readable ≡ true
      → d.writable ≡ true
      → key ≢ other
      → (after (remove_value key d) (has_value key) ≡ returns false)
        × (after (remove_value key d) (look_up other) ≡ look_up other d)
  unfolding remove_value has_value look_up write_full_json read_full_json map_result object_of
      is_some find
  has_value-remove key other d r w h =
      ground
        (arith, find-remove key (read_full_json d), find-remove_ne key other (read_full_json d) h)

  -- If the file exists and can be written but not read, putting a value drops every other key.
  put_unreadable :
      (key other : List ℕ) (v : JsonValue D) (d : Disk D)
      → d.readable ≡ false
      → d.writable ≡ true
      → key ≢ other
      → (e : Disk D) × (put key v d ≡ returns e) × (find other (object_of e.root) ≡ none)
  unfolding put write_full_json read_full_json object_of find insert
  put_unreadable key other v d r w h = (
    record d { present = true; root = some (field key v end) },
    ground arith,
    ground (arith, differ key other h),
  )

module _ {D : Type 0} (of_int : ℤ → D) (to_int : D → ℤ) where
  -- If the file can be read and written, each getter returns what the put function of its type has
  -- stored: an int if the conversion from a double undoes the one to it, a text if it has no zero.
  pub get-put :
      (key : List ℕ) (n : ℤ) (x : D) (b : Bool) (s : List ℕ) (o : JsonObject D) (d : Disk D)
      → d.readable ≡ true
      → d.writable ≡ true
      → to_int (of_int n) ≡ n
      → c_str s ≡ s
      → (after (put_value_int of_int to_int key n d) (get_value_int of_int to_int key) ≡ returns n)
        × (after (put_value_double key x d) (get_value_double of_int to_int key) ≡ returns x)
        × (after (put_value_bool key b d) (get_value_bool key) ≡ returns b)
        × (after (put_value_string key s d) (get_value_string key) ≡ returns s)
        × (after (put_object key o d) (get_value key) ≡ returns (some o))
  unfolding put_value_int get_value_int put_value_double get_value_double put_value_bool
      get_value_bool put_value_string get_value_string put_object get_value to_object to_bool
      to_text as_int as_double
  get-put key n x b s o d r w back whole = (
    getter-put (λ v. returns (as_int of_int to_int v)) key (number (of_int n)) d r w
        ∙ ap returns back,
    getter-put (λ v. returns (as_double of_int to_int v)) key (number x) d r w,
    getter-put (λ v. returns (to_bool v)) key (boolean b) d r w,
    getter-put to_text key (text (c_str s)) d r w ∙ ap returns whole,
    getter-put (λ v. returns (to_object v)) key (object o) d r w,
  )
