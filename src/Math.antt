-- ===== src/Math.antt =====
-- jupiter-core/src/math: the fees and the result of a swap on a curve.
pub mod Fees
pub mod SwapCurveInfo
pub mod TokenSwap
