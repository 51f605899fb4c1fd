-- ===== src/Gateway/Config/Qos.antt =====
-- gateway/src/management/config.rs: `QosPolicy`, the marks of a rule's outgoing packets.
use scg.Base.{
  inl, inr, Option-cases, ℕ, Bool, true, false, ◌&&◌, Option, none, some, ◌≡◌, ◌<◌, arith,
}
use Prim.Native.Nat.{bit_and}
use scg.Base.Bits.{bit_and_mask}
use scg.Gateway.Policy.{TrafficClass, safety, normal}
use scg.Gateway.Config.{RuleConfig}

abbrev pub dscp_ef : ℕ
dscp_ef = 46

abbrev pub safety_so_priority : ℕ
safety_so_priority = 6

unfoldable pub so_priority_for : TrafficClass → ℕ
so_priority_for safety = safety_so_priority
so_priority_for normal = 0

pub record QosPolicy : Type 0 where
  pub dscp_tag : Option ℕ
  pub preserve_inbound_dscp : Bool
  pub traffic_class : TrafficClass

-- The traffic class's default mark.
abbrev class_dscp : TrafficClass → Option ℕ
class_dscp safety = some dscp_ef
class_dscp normal = none

-- What the inbound sample gives, where the mark is preserved.
abbrev preserved_dscp : Bool → Option ℕ → Option ℕ
preserved_dscp true (some v) = some (bit_and v 63)
preserved_dscp true none = none
preserved_dscp false sampled_inbound = none

unfoldable pub egress_dscp : QosPolicy → Option ℕ → Option ℕ
egress_dscp q sampled_inbound = elim q.dscp_tag [
  | some tag ↦ some (bit_and tag 63)
  | none ↦ elim (preserved_dscp q.preserve_inbound_dscp sampled_inbound) [
    | some v ↦ some v
    | none ↦ class_dscp q.traffic_class
  ]
]

abbrev is_none : Option ℕ → Bool
is_none none = true
is_none (some n) = false

unfoldable pub needs_inbound_dscp : QosPolicy → Bool
needs_inbound_dscp q = q.preserve_inbound_dscp && is_none q.dscp_tag

unfoldable pub so_priority : QosPolicy → ℕ
unfolding so_priority_for
so_priority q = so_priority_for q.traffic_class

unfoldable pub qos : {Value : Type 0} → RuleConfig Value → QosPolicy
qos r = record {
  dscp_tag = r.dscp_tag;
  preserve_inbound_dscp = r.preserve_inbound_dscp;
  traffic_class = r.traffic_class;
}

masked_lt : (v : ℕ) → bit_and v 63 < 64
masked_lt v = omega (arith, bit_and_mask 6 v)

-- Whatever tag is configured and whatever was sampled, a mark that is stamped has six bits.
pub egress_dscp-lt :
    (q : QosPolicy) (sampled_inbound : Option ℕ) {v : ℕ}
    → egress_dscp q sampled_inbound ≡ some v
    → v < 64
unfolding egress_dscp
egress_dscp-lt q none e = elim (Option-cases q.dscp_tag) [
  | inr (tag, h) ↦ ground (arith, masked_lt tag)
  | inl h ↦ ground arith
]
egress_dscp-lt q (some n) e = elim (Option-cases q.dscp_tag) [
  | inr (tag, h) ↦ ground (arith, masked_lt tag)
  | inl h ↦ ground (arith, masked_lt n)
]

-- Where the policy says that no inbound sample is needed, the sample makes no difference to the mark.
pub needs_inbound_dscp-egress_dscp :
    (q : QosPolicy) (sampled_inbound other : Option ℕ)
    → needs_inbound_dscp q ≡ false
    → egress_dscp q sampled_inbound ≡ egress_dscp q other
unfolding egress_dscp needs_inbound_dscp
needs_inbound_dscp-egress_dscp q s o h = ground arith
