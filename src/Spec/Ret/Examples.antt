-- ===== src/Spec/Ret/Examples.antt =====
-- Instances of the theorems about `SbiRet`.
