-- ===== src/Config/Client.antt =====
-- The MQTT client of `get_args`, and `DottableDict` (wetland/config.py).
use wetland.Prelude.{
  ℕ, Bytes, bytes_eq, bytes_eq_refl, Bool, true, false, List, [], ◌∷◌, Option, none, some, ◌≡◌,
  if◌then◌else◌, arith,
}
use wetland.Prelude.Py.{Outcome}
use wetland.Config.{Args, Request, get_args}

-- The calls on the client of paho.mqtt.
pub data ClientCall : Type 0 where
  username_pw_set : Bytes → Bytes → ClientCall
  connect_async : Bytes → ClientCall
  loop_start : ClientCall

-- The options of the section mqtt.
pub record MqttOptions : Type 0 where
  pub host : Bytes
  pub usr : Bytes
  pub pwd : Bytes

-- `args.mqtthost`, and the client with the calls made on it.
pub record Client : Type 0 where
  pub mqtthost : Bytes
  pub calls : List ClientCall

-- Lines 56 to 67.
unfoldable pub connect : MqttOptions → Client
connect o = record {
  mqtthost = o.host;
  calls = username_pw_set o.usr o.pwd ∷ connect_async o.host ∷ loop_start ∷ [];
}

-- get_args with the option `mqtt`: the client works before the address is asked for, and goes on
-- if that raises.
unfoldable pub get_all_args :
    Bool → MqttOptions → Bool → Bytes → ℕ → Request → Option Client × Option (Outcome Args)
unfolding connect get_args
get_all_args mqtt o public name port request =
    (if mqtt then some (connect o) else none, get_args public name port request)

module _ {ℓ} {V : Type ℓ} where
  -- d[k]
  unfoldable pub get_item : Bytes → List (Bytes × V) → Option V
  get_item k [] = none
  get_item k ((j, v) ∷ m) = let rest = get_item k m in if bytes_eq j k then some v else rest

  -- d[k] = v
  unfoldable pub set_item : Bytes → V → List (Bytes × V) → List (Bytes × V)
  set_item k v [] = (k, v) ∷ []
  set_item k v ((j, w) ∷ m) =
      let rest = set_item k v m in if bytes_eq j k then (j, v) ∷ m else (j, w) ∷ rest

  pub get_item-set_item :
      (k : Bytes) (v : V) (m : List (Bytes × V)) → get_item k (set_item k v m) ≡ some v
  unfolding get_item set_item
  get_item-set_item k v [] = ground (arith, bytes_eq_refl k)
  get_item-set_item k v ((j, w) ∷ m) = ground (arith, get_item-set_item k v m)

-- A dictionary whose `__dict__` is itself (`none`) or another one.
pub record DottableDict (V : Type 0) : Type 0 where
  pub items : List (Bytes × V)
  pub own : Option (List (Bytes × V))

module _ {V : Type 0} where
  -- DottableDict.__init__
  unfoldable pub dottable : List (Bytes × V) → DottableDict V
  dottable items = record { items = items; own = none }

  -- DottableDict.allowDotting
  unfoldable pub allow_dotting : Bool → DottableDict V → DottableDict V
  allow_dotting true d = record d { own = none }
  allow_dotting false d = record d { own = some [] }

  abbrev attributes_of : Option (List (Bytes × V)) → List (Bytes × V) → List (Bytes × V)
  attributes_of none items = items
  attributes_of (some own) items = own

  -- d.k
  unfoldable pub get_attribute : Bytes → DottableDict V → Option V
  unfolding get_item
  get_attribute k d = get_item k (attributes_of d.own d.items)

  -- d.k = v
  unfoldable pub set_attribute : Bytes → V → DottableDict V → DottableDict V
  unfolding set_item
  set_attribute k v d = elim d.own [
    | none ↦ record d { items = set_item k v d.items }
    | some own ↦ record d { own = some (set_item k v own) }
  ]

  -- What is assigned as an attribute is an item too, and the other way round.
  pub get_attribute-set_attribute :
      (k : Bytes) (v : V) (items : List (Bytes × V))
      → (get_attribute k (set_attribute k v (dottable items)) ≡ some v)
        × (get_item k (set_attribute k v (dottable items)).items ≡ some v)
  unfolding get_attribute set_attribute dottable
  get_attribute-set_attribute k v items = (get_item-set_item k v items, get_item-set_item k v items)
