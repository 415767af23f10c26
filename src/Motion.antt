-- ===== src/Motion.antt =====
-- src/motion/: the classifier, the shock detector and the motion manager that drives both.
pub mod Classifier
pub mod Shock
pub mod Manager
